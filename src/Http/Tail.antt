-- ===== src/Http/Tail.antt =====
-- `write_callback` of src/http.c: the bytes it keeps of what the server sends.
use pg_clickhouse.Prelude.{
  ℕ, ◌-◌, ◌||◌, min, Bytes, Bool, true, false, List, [], ◌∷◌, ◌++◌, Option, none, some, ltb, length,
  drop, concat, append_assoc, append-nil, length-append, length-drop, drop-append, drop-drop,
  drop-capped, ◌≡◌, refl, sym, ap, ◌∙◌, inl, inr, Bool-cases, arith,
}
use pg_clickhouse.Http.{
  Finish, finished, aborted, broke, Perform, multi_failed, performed, fail, conclude, settle,
  after_perform, pump_loop, pump, Stream, tail_size, new_size, needed_size, new_tail, append,
  write_callback, write_next, write_all,
}

-- The last `n` bytes of a list.
abbrev pub last_bytes : ℕ → Bytes → Bytes
last_bytes n bytes = drop (length bytes - n) bytes

-- What is kept of the bytes before a receipt, and of the receipt.
new_tail-last :
    (seen contents : Bytes)
    → new_tail (last_bytes tail_size seen) contents ≡ last_bytes tail_size (seen ++ contents)
unfolding new_tail
new_tail-last seen contents =
    let kept = length-drop (length seen - tail_size) seen in
    let total = length-append seen contents in
    ap (λ k. k ++ drop (length contents - min (length contents) tail_size) contents)
      (drop-drop _ (length seen - tail_size) seen
        ∙ drop-capped _ (length (seen ++ contents) - tail_size) seen (omega arith))
    ∙ ap (λ k. drop (length (seen ++ contents) - tail_size) seen ++ drop k contents) (omega arith)
    ∙ sym (drop-append (length (seen ++ contents) - tail_size) seen contents)

-- What a run of receipts leaves of a stream.
pub record Written (chunks : List Bytes) (s t : Stream) : Type 0 where
  pub same_curl : t.curl ≡ s.curl
  pub longer_buf : t.buf ≡ s.buf ++ concat chunks
  pub same_streaming : t.streaming ≡ s.streaming
  pub same_done : t.transfer_done ≡ s.transfer_done
  pub same_error : t.error_msg ≡ s.error_msg

-- The tail is the end of what came: of `seen`, which has left the buffer, and of the buffer.
abbrev pub IsTailed : Bytes → Stream → Type 0
IsTailed seen s = (s.streaming ≡ true) × (s.tail ≡ last_bytes tail_size (seen ++ s.buf))

module _ (has_room : ℕ → Bool) (write_error : Bytes) (room : (n : ℕ) → has_room n ≡ true) where
  -- A receipt is taken whatever the buffer's size, if there is memory.
  write_callback-taken :
      (contents : Bytes) (s : Stream)
      → (size : ℕ) × (write_callback has_room write_error contents s
          ≡ some (append contents (record s { buf_allocated = size })))
  unfolding write_callback
  write_callback-taken contents s =
      elim (Bool-cases (ltb s.buf_allocated (needed_size s contents))) [
        | inl grows ↦ (new_size s.buf_allocated (needed_size s contents), rw (grows, room _) refl)
        | inr fits ↦ (s.buf_allocated, rw fits refl)
      ]

  pub write_all-Written :
      (chunks : List Bytes) (s : Stream)
      → ((write_all has_room write_error chunks s).1 ≡ true)
        × Written chunks s (write_all has_room write_error chunks s).0
  unfolding write_all
  write_all-Written [] s = (
    refl,
    record {
      same_curl = refl;
      longer_buf = sym (append-nil s.buf);
      same_streaming = refl;
      same_done = refl;
      same_error = refl;
    },
  )
  write_all-Written (c ∷ chunks) s =
      let (size, taken) = write_callback-taken c s in
      let (ok, rest) = write_all-Written chunks (append c (record s { buf_allocated = size })) in
      rw taken (
        unfold write_next in
        (
          ok,
          unfold append in
              record {
                same_curl = rest.same_curl;
                longer_buf = rest.longer_buf ∙ append_assoc s.buf c (concat chunks);
                same_streaming = rest.same_streaming;
                same_done = rest.same_done;
                same_error = rest.same_error;
              },
        ))

  write_all-paused :
      (chunks : List Bytes) (s : Stream)
      → s.streaming ≡ true
      → s.paused ≡ true
      → (write_all has_room write_error chunks s).0.paused ≡ true
  unfolding write_all
  write_all-paused [] s on h = h
  write_all-paused (c ∷ chunks) s on h =
      let (size, taken) = write_callback-taken c s in
      rw taken (
        unfold write_next in
        write_all-paused chunks (append c (record s { buf_allocated = size })) (unfold append in on)
          (unfold append in rw on refl))

  -- A stream that does not pause received nothing.
  pub write_all-unpaused :
      (chunks : List Bytes) (s : Stream)
      → s.streaming ≡ true
      → (write_all has_room write_error chunks s).0.paused ≡ false
      → chunks ≡ []
  write_all-unpaused [] s on h = refl
  write_all-unpaused (c ∷ chunks) s on h =
      let (size, taken) = write_callback-taken c s in
      let paused =
        write_all-paused chunks (append c (record s { buf_allocated = size })) (unfold append in on)
          (unfold append in rw on refl) in
      let same : (write_all has_room write_error (c ∷ chunks) s).0.paused ≡ true =
        (unfold write_all in rw taken (unfold write_next in paused)) in
      cc

  -- While it streams, the tail is at every moment the last bytes of all that came so far, at most
  -- the 4096 that fit, however the server cut it into receipts.
  pub write_all-last_bytes :
      (chunks : List Bytes) (seen : Bytes) (s : Stream)
      → s.streaming ≡ true
      → s.tail ≡ last_bytes tail_size seen
      → (write_all has_room write_error chunks s).0.tail
        ≡ last_bytes tail_size (seen ++ concat chunks)
  unfolding write_all
  write_all-last_bytes [] seen s on h = h ∙ ap (last_bytes tail_size) (sym (append-nil seen))
  write_all-last_bytes (c ∷ chunks) seen s on h =
      let (size, taken) = write_callback-taken c s in
      let next = append c (record s { buf_allocated = size }) in
      rw taken (
        unfold write_next in
        write_all-last_bytes chunks (seen ++ c) next (unfold append in on)
          (unfold append in rw (on, h) (new_tail-last seen c))
        ∙ ap (last_bytes tail_size) (append_assoc seen c (concat chunks)))

  IsTailed-write_all :
      (seen : Bytes) (chunks : List Bytes) (s : Stream)
      → IsTailed seen s
      → IsTailed seen (write_all has_room write_error chunks s).0
  IsTailed-write_all seen chunks s (on, h) =
      let (ok, w) = write_all-Written chunks s in
      (
        w.same_streaming ∙ on,
        write_all-last_bytes chunks (seen ++ s.buf) s on h
            ∙ ap (last_bytes tail_size)
                (append_assoc seen s.buf (concat chunks) ∙ ap (λ b. seen ++ b) (sym w.longer_buf)),
      )

  IsTailed-fail :
      (seen : Bytes) (status : ℕ) (msg : Option Bytes) (s : Stream)
      → IsTailed seen s
      → IsTailed seen (fail status msg s).0
  unfolding fail
  IsTailed-fail seen status msg s h = h

  IsTailed-conclude :
      (seen : Bytes) (finish : Option Finish) (s : Stream)
      → IsTailed seen s
      → IsTailed seen (conclude finish s).0
  unfolding conclude fail
  IsTailed-conclude seen none s h = h
  IsTailed-conclude seen (some finished) s h = h
  IsTailed-conclude seen (some aborted) s h = h
  IsTailed-conclude seen (some (broke msg)) s h = h

  IsTailed-settle :
      (seen : Bytes) (r : Stream × Option Finish) (again : Stream → Stream × Bool)
      → IsTailed seen r.0
      → ((u : Stream) → IsTailed seen u → IsTailed seen (again u).0)
      → IsTailed seen (settle r again).0
  unfolding settle
  IsTailed-settle seen (s, finish) again h later = elim (Bool-cases (s.paused || s.transfer_done)) [
    | inl stops ↦ rw stops (IsTailed-conclude seen finish s h)
    | inr goes_on ↦ rw goes_on (later s h)
  ]

  IsTailed-after_perform :
      (seen : Bytes) (r : Stream × Bool) (code : ℕ) (finish : Option Finish)
      → IsTailed seen r.0
      → IsTailed seen (after_perform has_room write_error r code finish).0
  unfolding after_perform
  IsTailed-after_perform seen (s, true) code finish h = h
  IsTailed-after_perform seen (s, false) code finish h = h

  IsTailed-pump_loop :
      (seen : Bytes) (curl : List Perform) (s : Stream)
      → IsTailed seen s
      → IsTailed seen (pump_loop has_room write_error curl s).0
  unfolding pump_loop fail
  IsTailed-pump_loop seen [] s h = h
  IsTailed-pump_loop seen (multi_failed msg ∷ curl) s h = h
  IsTailed-pump_loop seen (performed chunks code finish ∷ curl) s h =
      let r = write_all has_room write_error chunks (record s { curl = curl }) in
      IsTailed-settle seen (after_perform has_room write_error r code finish)
        (pump_loop has_room write_error curl)
        (IsTailed-after_perform seen r code finish
          (IsTailed-write_all seen chunks (record s { curl = curl }) h))
        (λ u v. IsTailed-pump_loop seen curl u v)

  -- Every call of `pump` leaves the tail the end of what came, however the call ends.
  pub IsTailed-pump :
      (seen : Bytes) (s : Stream) → IsTailed seen s → IsTailed seen (pump has_room write_error s).0
  unfolding pump
  IsTailed-pump seen s h = IsTailed-pump_loop seen s.curl (record s { paused = false }) h
