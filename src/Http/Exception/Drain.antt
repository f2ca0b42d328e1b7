-- ===== src/Http/Exception/Drain.antt =====
-- The exception of src/http.c behind a body that is read to its end.
use pg_clickhouse.Prelude.{
  ℕ, zero, suc, ◌+◌, ◌<◌, Bytes, Bool, true, false, ◌||◌, [], ◌++◌, none, some, leb, if◌then◌else◌,
  length, length-append, append-nil, append_assoc, ◌≡◌, refl, sym, ap, subst, ◌∙◌, inl, inr,
  Bool-cases, arith,
}
use pg_clickhouse.Http.{Stream, pump, tail_size}
use pg_clickhouse.Http.Error.{copy_error}
use pg_clickhouse.Http.Tail.{last_bytes, IsTailed, IsTailed-pump}
use pg_clickhouse.Http.Body.Calls.{pump_loop-Pumped}
use pg_clickhouse.Http.Body.{whole, cut, Reading, before, body, content, calls_left, Pumped}
use pg_clickhouse.Http.Exception.{
  first_exception, drained, drain_loop, tail_exception, stream_exception,
}
use pg_clickhouse.Http.Exception.Search.{find_exception-first}

-- What the server still sends, if it is all sent.
unfoldable Remains : Stream → Bytes → Type 0
unfolding body
Remains s rest = (if s.transfer_done then ([], whole) else body s.error_msg s.curl) ≡ (rest, whole)

module _ (has_room : ℕ → Bool) (write_error : Bytes) (room : (n : ℕ) → has_room n ≡ true) where
  abbrev Drains : ℕ → Type 0
  Drains k =
      (n : ℕ) (seen rest : Bytes) (s : Stream)
      → IsTailed seen s
      → Remains s rest
      → n + length rest < tail_size
      → calls_left s < k
      → (t : Stream) × (drain_loop has_room write_error k n s ≡ some t)
        × (t.tail ≡ last_bytes tail_size (seen ++ (s.buf ++ rest)))

  drained-tail :
      (k n m : ℕ) (seen rest : Bytes) (r : Stream × Bool)
      → Drains k
      → Pumped (rest, whole) m r
      → m < k
      → IsTailed seen r.0
      → n + length rest < tail_size
      → (t : Stream) × (drained has_room write_error (drain_loop has_room write_error k) n r
          ≡ some t)
        × (t.tail ≡ last_bytes tail_size (seen ++ rest))
  unfolding Pumped drained
  drained-tail k n m seen rest (s, false) later same fuel tailed little =
      let bad : whole ≡ cut s.error_msg = ap (λ (r : Reading). r.1) same in absurd cc
  drained-tail k n m seen rest (s, true) later (same, fewer, on) fuel tailed little =
      let more = if s.transfer_done then ([], whole) else body s.error_msg s.curl in
      let split : rest ≡ s.buf ++ more.0 =
        ap (λ (r : Reading). r.0) same ∙ (unfold content before in refl) in
      let ends : whole ≡ more.1 =
        ap (λ (r : Reading). r.1) same ∙ (unfold content before in refl) in
      let shorter = ap length split in
      let both = length-append s.buf more.0 in
      let (t, runs, h) =
        later (n + length s.buf) seen more.0 s tailed
          (unfold Remains in ap (λ e. (more.0, e)) (sym ends)) (omega arith) (omega arith) in
      (t, runs, h ∙ ap (λ l. last_bytes tail_size (seen ++ l)) (sym split))

  drain_loop-stop :
      (k n : ℕ) (seen rest : Bytes) (s : Stream)
      → IsTailed seen s
      → Remains s rest
      → s.transfer_done ≡ true
      → (t : Stream) × (drain_loop has_room write_error (suc k) n s ≡ some t)
        × (t.tail ≡ last_bytes tail_size (seen ++ (s.buf ++ rest)))
  unfolding drain_loop Remains
  drain_loop-stop k n seen rest s (on, h) left ended =
      let more =
        drained has_room write_error (drain_loop has_room write_error k) n
          (pump has_room write_error (record s { buf = [] })) in
      let stops : drain_loop has_room write_error (suc k) n s ≡ some s =
        ap (λ d. if d || leb tail_size n then some s else more) ended in
      let nothing : [] ≡ rest =
        ap (λ (r : Reading). r.0)
          (ap (λ d. if d then ([], whole) else body s.error_msg s.curl) (sym ended) ∙ left) in
      (
        s,
        stops,
        h
            ∙ ap (λ l. last_bytes tail_size (seen ++ l))
                (sym (append-nil s.buf) ∙ ap (λ l. s.buf ++ l) nothing),
      )

  drain_loop-step :
      (k n : ℕ) (s : Stream)
      → s.transfer_done ≡ false
      → n < tail_size
      → drain_loop has_room write_error (suc k) n s
        ≡ drained has_room write_error
            (drain_loop has_room write_error k)
            n
            (pump has_room write_error (record s { buf = [] }))
  unfolding drain_loop
  drain_loop-step k n s going little =
      let more =
        drained has_room write_error (drain_loop has_room write_error k) n
          (pump has_room write_error (record s { buf = [] })) in
      let short : leb tail_size n ≡ false = ground arith in
      ap (λ d. if d || leb tail_size n then some s else more) going
      ∙ ap (λ d. if d then some s else more) short

  drain_loop-Drains : (k : ℕ) → Drains k
  drain_loop-Drains zero n seen rest s tailed left little fuel = absurd (omega arith)
  drain_loop-Drains (suc k) n seen rest s (on, h) left little fuel =
      elim (Bool-cases s.transfer_done) [
        | inl ended ↦ drain_loop-stop k n seen rest s (on, h) left ended
        | inr going ↦
            let emptied = record s { buf = [] } in
            let r = pump has_room write_error emptied in
            let seen_all : IsTailed (seen ++ s.buf) emptied =
              (on, h ∙ ap (last_bytes tail_size) (sym (append-nil (seen ++ s.buf)))) in
            let open_left : body s.error_msg s.curl ≡ (rest, whole) =
              ap (λ d. if d then ([], whole) else body s.error_msg s.curl) (sym going)
              ∙ (unfold Remains in left) in
            let left_calls : calls_left s ≡ suc (length s.curl) =
              unfold calls_left in ap (λ d. if d then 0 else suc (length s.curl)) going in
            let does : Pumped (rest, whole) (length s.curl) r =
              subst (λ m. Pumped m (length s.curl) r) open_left
                (unfold pump in
                  pump_loop-Pumped has_room write_error room s.curl
                    (record emptied { paused = false }) refl on going) in
            let (t, runs, tail) =
              drained-tail k n (length s.curl) (seen ++ s.buf) rest r (drain_loop-Drains k) does
                (omega arith)
                (IsTailed-pump has_room write_error room (seen ++ s.buf) emptied seen_all) little in
            (
              t,
              drain_loop-step k n s going (omega arith) ∙ runs,
              tail ∙ ap (last_bytes tail_size) (append_assoc seen s.buf rest),
            )
      ]

  -- As long as every allocation succeeds: behind a query that fails late, where the body breaks off in
  -- an error of the decoder but the server sends all of it, and less than 4096 bytes are left to
  -- receive, and where the stream kept the tail of what was received so far, the message is found:
  -- it is copied
  -- from the first "Code: " and digit in the last 4096 bytes of the whole body, those that were
  -- decoded long ago (`seen`), those in the buffer and those yet to come alike. The fuel is enough.
  pub stream_exception-whole :
      (cliplen : Bytes → ℕ → ℕ) (bufsize : ℕ) (seen rest : Bytes) (s : Stream)
      → s.streaming ≡ true
      → s.tail ≡ last_bytes tail_size (seen ++ s.buf)
      → (if s.transfer_done then ([], whole) else body s.error_msg s.curl) ≡ (rest, whole)
      → length rest < tail_size
      → stream_exception has_room write_error cliplen bufsize s
        ≡ some (elim (first_exception (last_bytes tail_size (seen ++ (s.buf ++ rest)))) [
          | none ↦ none
          | some exc ↦ some (copy_error cliplen bufsize exc)
        ])
  unfolding stream_exception tail_exception Remains
  stream_exception-whole cliplen bufsize seen rest s on h left little =
      let (t, runs, tail) =
        drain_loop-Drains (suc (suc (length s.curl))) 0 seen rest s (on, h) left (omega arith)
          (unfold calls_left in ground arith) in
      rw (runs, find_exception-first t.tail, tail) refl
