-- ===== src/Buffer/Resources.antt =====
-- What a registration leaves alive: memory regions, staging buffers and descriptors.
use hip_object.Prelude.{
  ℕ, ◌<◌, ◌≡◌, refl, ◌∙◌, Bool, false, Option, none, some, List, [], ◌∷◌, ◌++◌, ◌==◌, if◌then◌else◌,
  is_some, length, arith,
}
use hip_object.Buffer.{
  Object, mr, host_buf, fd, acquired, dropped, declined, Log, System, BufEntry, Item,
  RegisterResult, registered, already_registered, failed, lookup, max_entries, log_of, refusal,
  free_host, destroy_entry, Registration, insert, insert_unless, or_plain, plain,
}

abbrev same_object : Object → Object → Bool
same_object (mr a) (mr b) = a == b
same_object (host_buf a) (host_buf b) = a == b
same_object (fd a) (fd b) = a == b
same_object a b = false

abbrev remove_object : Object → List Object → List Object
remove_object o [] = []
remove_object o (x ∷ xs) = if same_object o x then xs else x ∷ remove_object o xs

-- The objects that the calls of a log leave alive, the youngest first.
abbrev pub alive : Log → List Object
alive [] = []
alive (acquired o ∷ log) = o ∷ alive log
alive (dropped o ∷ log) = remove_object o (alive log)
alive (declined ∷ log) = alive log

abbrev pub some_mr : Option ℕ → List Object
some_mr none = []
some_mr (some m) = mr m ∷ []

abbrev pub some_host_buf : Option ℕ → List Object
some_host_buf none = []
some_host_buf (some a) = host_buf a ∷ []

-- The objects of an entry.
abbrev pub objects : BufEntry → List Object
objects e = mr e.mr ∷ some_host_buf e.host_buf

-- The address that the peer is told is where the memory region lies.
abbrev pub Advertises : ℕ → BufEntry → Type 0
Advertises key e =
    (e.host_buf ≡ none → e.remote_addr ≡ key) × ((a : ℕ) → e.host_buf ≡ some a → e.remote_addr ≡ a)

-- A new item of the map, which was not in it.
pub record IsRegistered (key size : ℕ) (entries entries' : List Item) (log log' : Log)
    : Type 0 where
  pub entry : BufEntry
  pub adds : entries' ≡ record { key = key; entry = entry; copies = 0 } ∷ entries
  pub is_new : is_some (lookup key entries) ≡ false
  pub has_room : length entries < max_entries
  pub has_size : entry.size ≡ size
  pub advertises : Advertises key entry
  pub keeps : alive log' ≡ objects entry ++ alive log

abbrev pub Registers : ℕ → ℕ → List Item → Log → Registration → Type 0
Registers key size entries log (registered, entries', log') =
    IsRegistered key size entries entries' log log'
Registers key size entries log (already_registered, entries', log') =
    (entries' ≡ entries) × (alive log' ≡ alive log)
Registers key size entries log (failed, entries', log') =
    (entries' ≡ entries) × (alive log' ≡ alive log)

destroyed :
    (h : Option ℕ) (m : ℕ) (rest : List Object) (log : Log)
    → alive log ≡ mr m ∷ some_host_buf h ++ rest
    → alive (free_host h (dropped (mr m) ∷ log)) ≡ rest
destroyed none m rest log h = rw h (ground arith)
destroyed (some a) m rest log h = rw h (ground arith)

pub refused-Registers :
    (key size : ℕ) (before entries : List Item) (r : RegisterResult) (log log' : Log)
    → refusal key before ≡ some r
    → alive log' ≡ alive log
    → Registers key size entries log (r, entries, log')
unfolding refusal
refused-Registers key size before entries registered log log' h k = absurd (ground arith)
refused-Registers key size before entries already_registered log log' h k = (refl, k)
refused-Registers key size before entries failed log log' h k = (refl, k)

insert_unless-Registers :
    (o : Option RegisterResult) (key size : ℕ) (e : BufEntry) (entries : List Item) (log log' : Log)
    → refusal key entries ≡ o
    → e.size ≡ size
    → Advertises key e
    → alive log' ≡ objects e ++ alive log
    → Registers key size entries log (insert_unless o key e entries log')
unfolding insert_unless refusal
insert_unless-Registers none key size e entries log log' q s a h = record {
  entry = e;
  adds = refl;
  is_new = ground arith;
  has_room = ground arith;
  has_size = s;
  advertises = a;
  keeps = h;
}
insert_unless-Registers (some r) key size e entries log log' q s a h =
    refused-Registers key size entries entries r log (destroy_entry e log') q
      (destroyed e.host_buf e.mr (alive log) log' h)

pub insert-Registers :
    (key size : ℕ) (e : BufEntry) (entries : List Item) (log log' : Log)
    → e.size ≡ size
    → Advertises key e
    → alive log' ≡ objects e ++ alive log
    → Registers key size entries log (insert key e entries log')
unfolding insert
insert-Registers key size e entries log log' s a h =
    insert_unless-Registers (refusal key entries) key size e entries log log' refl s a h

-- A region was registered, or nothing.
abbrev pub Acquires : Log → Option ℕ × Log → Type 0
Acquires log (m, log') = alive log' ≡ some_mr m ++ alive log

pub log_of_mr : (m : Option ℕ) (log : Log) → alive (log_of m mr log) ≡ some_mr m ++ alive log
log_of_mr none log = refl
log_of_mr (some m) log = refl

module _ (system : System) where
  pub plain-Acquires : (addr len : ℕ) (log : Log) → Acquires log (plain system addr len log)
  unfolding plain
  plain-Acquires addr len log = log_of_mr (system.reg_mr log addr len) log

  pub or_plain-Acquires :
      (addr len d : ℕ) (m : Option ℕ) (log log0 : Log)
      → alive log ≡ fd d ∷ alive log0
      → Acquires log0 (or_plain system addr len m (dropped (fd d) ∷ log_of m mr log))
  unfolding or_plain
  or_plain-Acquires addr len d (some m) log log0 h = rw h (ground arith)
  or_plain-Acquires addr len d none log log0 h =
      plain-Acquires addr len (dropped (fd d) ∷ declined ∷ log) ∙ rw h (ground arith)
