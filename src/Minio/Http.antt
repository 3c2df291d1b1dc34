-- ===== src/Minio/Http.antt =====
-- integrations/minio-cpp/src/client.cpp: what goes to minio-cpp's client and comes from it, and how a
-- downloaded object gets into the buffer.
use hip_object.Prelude.{ℕ, ◌+◌, ◌-◌, ◌^◌, Option, List, [], ◌∷◌, ◌++◌, length, take, drop, codes}
use hip_object.Api.Instance.{Ending}
use hip_object.Minio.{RdmaResult, ok, failed, not_supported, S3RdmaContext}
use hip_object.Minio.Session.{HttpPut}

-- `PutObjectArgs` and `GetObjectArgs`, as far as they are read; a null `buf` is 0.
pub record ObjectArgs : Type 0 where
  pub buf : ℕ
  pub size : Option ℕ

-- A response of minio-cpp: the message of its error, or the object's etag (a bucket's region).
pub data ApiResponse : Type 0 where
  succeeds fails : List ℕ → ApiResponse

-- minio-cpp's client: a request gives a response, throws, or still waits. `get` also says in what
-- chunks it handed the object over.
pub record S3Client (S : Type 0) : Type 0 where
  pub validate_put : ObjectArgs → Option (List ℕ)
  pub validate_get : ObjectArgs → Option (List ℕ)
  pub put_as_given : ObjectArgs → S → Ending ApiResponse × S
  pub get_as_given : ObjectArgs → S → Ending ApiResponse × S
  pub put : HttpPut → S → Ending ApiResponse × S
  pub get : S → List (List ℕ) × (Ending ApiResponse × S)
  pub get_region : S → Ending ApiResponse × S

-- The largest `long`, where it has 64 bits
abbrev pub max_long : ℕ
max_long = 2 ^ 63 - 1

-- `DescribeFailure`
abbrev pub describe_failure : RdmaResult → List ℕ
describe_failure r = elim r.status [
  | not_supported ↦ codes "not supported"
  | failed ↦ codes "error"
  | ok ↦ codes "no bytes transferred"
]

-- `std::ranges::copy` of a text to the beginning of a span that is not shorter
unfoldable pub copy_to : List ℕ → List ℕ → List ℕ
copy_to [] dst = dst
copy_to (x ∷ xs) [] = []
copy_to (x ∷ xs) (d ∷ dst) = x ∷ copy_to xs dst

-- The object as `HttpGetIntoBuffer` puts it together, and as it copies it.
unfoldable pub joined : List (List ℕ) → List ℕ
joined [] = []
joined (chunk ∷ chunks) = chunk ++ joined chunks

unfoldable pub copy_received : List (List ℕ) → List ℕ → List ℕ
unfolding joined copy_to
copy_received chunks dst = copy_to (take (length dst) (joined chunks)) dst

-- The `datafunc` of `GetObject`, for each chunk: what is past the end is dropped.
unfoldable pub write_chunks : List (List ℕ) → ℕ → List ℕ → List ℕ
unfolding copy_to
write_chunks [] offset dst = dst
write_chunks (chunk ∷ chunks) offset dst =
    let rest = drop offset dst in
    let text = take (length rest) chunk in
    write_chunks chunks (offset + length text) (take offset dst ++ copy_to text rest)

abbrev pub new_context : S3RdmaContext
new_context = record { upload_id = []; part_number = 0; checksum = []; etag = [] }
