-- ===== src/Minio/Objects/Chunks.antt =====
-- integrations/minio-cpp/src/client.cpp: the two ways to put an object that comes in chunks into a
-- buffer.
use hip_object.Prelude.{
  ℕ, suc, ◌≡◌, refl, sym, ap, ◌∙◌, List, [], ◌∷◌, ◌++◌, length, take, drop, length-append,
  take-append, drop-append, append_assoc,
}
use hip_object.Minio.Http.{copy_to, joined, copy_received, write_chunks}

-- What of a chunk fits into `rest`.
abbrev fitting : List ℕ → List ℕ → List ℕ
fitting chunk rest = take (length rest) chunk

copy_to-fitting :
    (chunk rest : List ℕ)
    → copy_to (fitting chunk rest) rest
      ≡ fitting chunk rest ++ drop (length (fitting chunk rest)) rest
unfolding copy_to
copy_to-fitting [] [] = refl
copy_to-fitting [] (d ∷ rest) = refl
copy_to-fitting (x ∷ chunk) [] = refl
copy_to-fitting (x ∷ chunk) (d ∷ rest) = ap (◌∷◌ x) (copy_to-fitting chunk rest)

-- A copy of two texts, one after the other.
copy_to-append :
    (chunk more rest : List ℕ)
    → copy_to (fitting (chunk ++ more) rest) rest
      ≡ fitting chunk rest
        ++ copy_to
            (fitting more (drop (length (fitting chunk rest)) rest))
            (drop (length (fitting chunk rest)) rest)
unfolding copy_to
copy_to-append [] more [] = refl
copy_to-append [] more (d ∷ rest) = refl
copy_to-append (x ∷ chunk) more [] = refl
copy_to-append (x ∷ chunk) more (d ∷ rest) = ap (◌∷◌ x) (copy_to-append chunk more rest)

length-copy_to : (text dst : List ℕ) → length (copy_to text dst) ≡ length dst
unfolding copy_to
length-copy_to [] dst = refl
length-copy_to (x ∷ text) [] = refl
length-copy_to (x ∷ text) (d ∷ dst) = ap suc (length-copy_to text dst)

-- After `front` has been written, the chunks go to the rest.
write_chunks_from :
    (chunks : List (List ℕ)) (front rest : List ℕ)
    → write_chunks chunks (length front) (front ++ rest) ≡ front ++ copy_received chunks rest
unfolding write_chunks copy_received joined copy_to
write_chunks_from [] front [] = refl
write_chunks_from [] front (d ∷ rest) = refl
write_chunks_from (chunk ∷ chunks) front rest =
    let text = fitting chunk rest in
    let left = drop (length text) rest in
    rw
      (
        drop-append front rest,
        take-append front rest,
        copy_to-fitting chunk rest,
        ← length-append front text,
        ← append_assoc front text left,
      )
      (write_chunks_from chunks (front ++ text) left
        ∙ (append_assoc front text (copy_received chunks left)
            ∙ ap (◌++◌ front) (sym (copy_to-append chunk (joined chunks) rest))))

-- However an object is cut into chunks: the fallback that writes each of them to the buffer leaves the
-- same bytes in it as the one that puts the object together first, as many as there were before.
pub write_chunks-copy_received :
    (chunks : List (List ℕ)) (dst : List ℕ)
    → (write_chunks chunks 0 dst ≡ copy_received chunks dst)
      × (length (write_chunks chunks 0 dst) ≡ length dst)
unfolding copy_received
write_chunks-copy_received chunks dst =
    let e = write_chunks_from chunks [] dst in
    (e, ap length e ∙ length-copy_to (fitting (joined chunks) dst) dst)
