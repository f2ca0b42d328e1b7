-- ===== src/Http/Body/Calls.antt =====
-- `pump` of src/http.c: what one call leaves to be read.
use pg_clickhouse.Prelude.{
  ℕ, suc, Bytes, Bool, true, false, List, [], ◌∷◌, Option, none, some, length, concat, append-nil,
  ◌≡◌, refl, sym, ap, subst, ◌∙◌, inl, inr, Bool-cases, arith,
}
use pg_clickhouse.Http.{
  Finish, finished, aborted, broke, Perform, multi_failed, performed, Stream, fail, conclude,
  is_some, after_perform, settle, write_all, pump_loop,
}
use pg_clickhouse.Http.Tail.{Written, write_all-Written, write_all-unpaused}
use pg_clickhouse.Http.Body.{Reading, before, delivered, body, content, calls_left, Pumped, whole}

module _ (has_room : ℕ → Bool) (write_error : Bytes) (room : (n : ℕ) → has_room n ≡ true) where
  Pumped-later : (all : Reading) (n : ℕ) (r : Stream × Bool) → Pumped all n r → Pumped all (suc n) r
  unfolding Pumped
  Pumped-later all n (t, true) (same, fewer, on) = (same, omega arith, on)
  Pumped-later all n (t, false) h = h

  -- One call of libcurl whose receipts were all taken.
  after-Pumped :
      (chunks : List Bytes) (code : ℕ) (finish : Option Finish) (curl : List Perform) (s t : Stream)
      → s.buf ≡ []
      → s.transfer_done ≡ false
      → s.streaming ≡ true
      → t.curl ≡ curl
      → Written chunks s t
      → (t.paused ≡ false → chunks ≡ [])
      → ((u : Stream)
          → u.buf ≡ []
          → u.streaming ≡ true
          → u.transfer_done ≡ false
          → u.error_msg ≡ s.error_msg
          → Pumped (body s.error_msg curl) (length curl) (pump_loop has_room write_error curl u))
      → Pumped
          (delivered s.error_msg (concat chunks) finish (body s.error_msg curl))
          (suc (length curl))
          (settle
            (after_perform has_room write_error (t, true) code finish)
            (pump_loop has_room write_error curl))
  unfolding after_perform settle conclude fail delivered is_some
  after-Pumped chunks code none curl s t empty going on left w heard later =
      elim (Bool-cases t.paused) [
        | inl paused ↦ rw paused (
            unfold Pumped content before calls_left in
            rw (left, w.longer_buf, empty, w.same_done, going, w.same_error, w.same_streaming, on)
              (refl, omega arith, refl))
        | inr idle ↦
            let u = record t { paused = false; http_status = code; transfer_done = false } in
            let rest =
              later u (w.longer_buf ∙ rw (empty, heard idle) refl) (w.same_streaming ∙ on) refl
                w.same_error in
            rw (idle, w.same_done, going, heard idle)
              (unfold before in Pumped-later _ (length curl) _ rest)
      ]
  after-Pumped chunks code (some finished) curl s t empty going on left w heard later =
      elim (Bool-cases t.paused) [
        | inl paused ↦ rw paused (
            unfold Pumped content before calls_left in
            rw (w.longer_buf, empty, w.same_streaming, on)
              (ap (λ l. (l, whole)) (sym (append-nil (concat chunks))), omega arith, refl))
        | inr idle ↦ rw idle (
            unfold Pumped content before calls_left in
            rw (w.longer_buf, empty, w.same_streaming, on)
              (ap (λ l. (l, whole)) (sym (append-nil (concat chunks))), omega arith, refl))
      ]
  after-Pumped chunks code (some aborted) curl s t empty going on left w heard later =
      elim (Bool-cases t.paused) [
        | inl paused ↦ rw paused (unfold Pumped in rw w.same_error refl)
        | inr idle ↦ rw idle (unfold Pumped in rw w.same_error refl)
      ]
  after-Pumped chunks code (some (broke msg)) curl s t empty going on left w heard later =
      elim (Bool-cases t.paused) [
        | inl paused ↦ rw paused (unfold Pumped in refl)
        | inr idle ↦ rw idle (unfold Pumped in refl)
      ]

  pub pump_loop-Pumped :
      (curl : List Perform) (s : Stream)
      → s.buf ≡ []
      → s.streaming ≡ true
      → s.transfer_done ≡ false
      → Pumped (body s.error_msg curl) (length curl) (pump_loop has_room write_error curl s)
  unfolding pump_loop body
  pump_loop-Pumped [] s empty on going =
      unfold Pumped content calls_left before in (rw empty refl, omega arith, on)
  pump_loop-Pumped (multi_failed msg ∷ curl) s empty on going = unfold fail Pumped in refl
  pump_loop-Pumped (performed chunks code finish ∷ curl) s empty on going =
      let start = record s { curl = curl } in
      let (ok, w) = write_all-Written has_room write_error room chunks start in
      let r = write_all has_room write_error chunks start in
      let same : r ≡ (r.0, true) = ap (λ b. (r.0, b)) ok in
      rw same (
        after-Pumped chunks code finish curl start r.0 empty going on w.same_curl w
          (write_all-unpaused has_room write_error room chunks start on)
          (λ u clear streams goes e.
            subst (λ m. Pumped (body m curl) (length curl) (pump_loop has_room write_error curl u))
              e (pump_loop-Pumped curl u clear streams goes)))
