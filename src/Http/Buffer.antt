-- ===== src/Http/Buffer.antt =====
-- `write_callback` of src/http.c: the room in its buffer.
use pg_clickhouse.Prelude.{
  ℕ, ◌+◌, ◌^◌, ◌≤◌, ◌<◌, Bytes, Bool, ◌++◌, none, some, ltb, length, length-append, ◌≡◌, refl,
  subst, inl, inr, Bool-cases, arith,
}
use pg_clickhouse.Http.{Stream, new_size, needed_size, append, write_callback}

-- The buffer holds what was written and the terminating NUL.
unfoldable pub IsRoomy : Stream → Type 0
IsRoomy s = length s.buf + 1 ≤ s.buf_allocated

-- A receipt that `write_callback` takes stands behind what was there, and the buffer still has its
-- size, the NUL included, whatever the sizes and whenever `realloc` fails: as long as the bytes
-- themselves can be counted, the wrap-around in doubling the buffer does no harm.
pub IsRoomy-write_callback :
    (has_room : ℕ → Bool) (write_error contents : Bytes) (s t : Stream)
    → IsRoomy s
    → length s.buf + length contents + 1 < 2 ^ 64
    → write_callback has_room write_error contents s ≡ some t
    → IsRoomy t × (t.buf ≡ s.buf ++ contents)
unfolding IsRoomy write_callback
IsRoomy-write_callback has_room write_error contents s t roomy counted h =
    elim (Bool-cases (ltb s.buf_allocated needed)) [
      | inr fits ↦ held s.buf_allocated (ground arith) (rw fits at h)
      | inl grows ↦ elim (Bool-cases (has_room (new_size s.buf_allocated needed))) [
        | inl room ↦
            held (new_size s.buf_allocated needed) (grown s.buf_allocated) (rw (grows, room) at h)
        | inr full ↦ let refused : none ≡ some t = rw (grows, full) at h in cc
      ]
    ]
  where
    needed : ℕ
    needed = needed_size s contents

    counts : needed ≡ length s.buf + length contents + 1
    counts = unfold needed_size in omega arith

    grown : (allocated : ℕ) → length s.buf + length contents + 1 ≤ new_size allocated needed
    grown allocated = rw counts (unfold new_size in ground arith)

    held :
        (size : ℕ)
        → length s.buf + length contents + 1 ≤ size
        → some (append contents (record s { buf_allocated = size })) ≡ some t
        → IsRoomy t × (t.buf ≡ s.buf ++ contents)
    held size enough same =
        let next : append contents (record s { buf_allocated = size }) ≡ t = cc in
        let measured = length-append s.buf contents in
        subst (λ u. IsRoomy u × (u.buf ≡ s.buf ++ contents)) next
          (unfold IsRoomy append in (omega arith, refl))
