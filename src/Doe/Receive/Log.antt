-- ===== src/Doe/Receive/Log.antt =====
-- What `device_doe_receive_message` adds to a record of the register writes.
use mathlib.Core.List.{append_assoc, append-nil}
use mathlib.Core.Path.{subst}
use tee_io_validator.Common.{
  ℕ, zero, suc, ◌+◌, ◌-◌, ◌*◌, ◌/◌, Bool, true, false, List, [], ◌++◌, some, ◌≡◌, inl, inr, refl,
  sym, ap, ◌∙◌, Outcome, returns, asserts, faults, ◌>>=◌, teeio_assert, ltb, ◌==◌, if◌then◌else◌,
  length, Bool-cases, Ensures, Ensures->>=, Ensures-bool,
}
use tee_io_validator.Doe.{
  Port, is_doe_error_asserted, is_doe_data_object_ready_asserted, clear_error,
}
use tee_io_validator.Doe.Send.{recover_error}
use tee_io_validator.Doe.Send.Laws.{logged}
use tee_io_validator.Doe.Receive.{
  Receiver, receive_delay, read_word, read_words, data_object_count, read_object, receive_end,
  receive_loop, device_doe_receive_message,
}

-- The second record goes on from the first.
abbrev pub Extends : List (ℕ × ℕ) → List (ℕ × ℕ) → Type 0
Extends l l' = (more : List (ℕ × ℕ)) × (l' ≡ l ++ more)

Extends-refl : (l : List (ℕ × ℕ)) → Extends l l
Extends-refl l = ([], sym (append-nil l))

Extends-trans : (l m n : List (ℕ × ℕ)) → Extends l m → Extends m n → Extends l n
Extends-trans l m n (a, e) (b, e') = (a ++ b, e' ∙ ap (λ k. k ++ b) e ∙ append_assoc l a b)

Ensures-map :
    {A : Type 0} {P Q : A → Type 0} (m : Outcome A)
    → ((a : A) → P a → Q a)
    → Ensures P m
    → Ensures Q m
Ensures-map (returns a) f h = f a h
Ensures-map asserts f h = tt
Ensures-map faults f h = tt

module _ {D : Type 0} (p : Port D) where
  abbrev pub log_of : Receiver (D × List (ℕ × ℕ)) → List (ℕ × ℕ)
  log_of s = s.device.1

  clear_error-Extends : (s : D × List (ℕ × ℕ)) → Extends s.1 (clear_error (logged p) s).1
  unfolding clear_error
  clear_error-Extends s = (_, refl)

  error-same : (s : D × List (ℕ × ℕ)) → (is_doe_error_asserted (logged p) s).1.1 ≡ s.1
  unfolding is_doe_error_asserted
  error-same s = refl

  ready-same : (s : D × List (ℕ × ℕ)) → (is_doe_data_object_ready_asserted (logged p) s).1.1 ≡ s.1
  unfolding is_doe_data_object_ready_asserted
  ready-same s = refl

  recover_error-Extends : (s : D × List (ℕ × ℕ)) → Extends s.1 (recover_error (logged p) s).1
  unfolding recover_error
  recover_error-Extends s = elim (Bool-cases (is_doe_error_asserted (logged p) s).0) [
    | inl e ↦ rw e (
        subst (λ l. Extends l (clear_error (logged p) (is_doe_error_asserted (logged p) s).1).1)
          (error-same s) (clear_error-Extends (is_doe_error_asserted (logged p) s).1))
    | inr e ↦ rw e (subst (Extends s.1) (sym (error-same s)) (Extends-refl s.1))
  ]

  read_word-Extends :
      (index : ℕ) (s : Receiver (D × List (ℕ × ℕ)))
      → Ensures (λ r. Extends (log_of s) (log_of r.1)) (read_word (logged p) index s)
  unfolding read_word
  read_word-Extends index s = elim (Bool-cases (ltb index (length s.buffer))) [
    | inl inside ↦ rw (read_word, inside) (_, refl)
    | inr outside ↦ rw (read_word, outside) tt
  ]

  read_words-Extends :
      (left index : ℕ) (s : Receiver (D × List (ℕ × ℕ)))
      → Ensures (λ r. Extends (log_of s) (log_of r)) (read_words (logged p) left index s)
  unfolding read_words
  read_words-Extends zero index s = Extends-refl (log_of s)
  read_words-Extends (suc left) index s =
      Ensures->>= (λ r. Extends (log_of s) (log_of r.1)) (λ r. Extends (log_of s) (log_of r)) _ _
        (read_word-Extends index s)
        (λ r e.
          Ensures-map _ (λ t. Extends-trans (log_of s) (log_of r.1) (log_of t) e)
            (read_words-Extends left (index + 1) r.1))

  read_object-Extends :
      (s : Receiver (D × List (ℕ × ℕ)))
      → Ensures (λ r. Extends (log_of s) (log_of r.1)) (read_object (logged p) s)
  unfolding read_object
  read_object-Extends s =
      Ensures->>= (λ r. Extends (log_of s) (log_of r.1)) (λ r. Extends (log_of s) (log_of r.1)) _ _
        (read_word-Extends 0 s)
        (λ first e.
          Ensures->>= (λ r. Extends (log_of s) (log_of r.1)) (λ r. Extends (log_of s) (log_of r.1))
            _ _
            (Ensures-map _ (λ t. Extends-trans (log_of s) (log_of first.1) (log_of t.1) e)
              (read_word-Extends 1 first.1))
            (λ second e'. object_rest s second.1 (data_object_count (logged p) second.0) e'))
    where
      object_rest :
          (s t : Receiver (D × List (ℕ × ℕ))) (count : ℕ)
          → Extends (log_of s) (log_of t)
          → Ensures
              (λ (r : Bool × Receiver (D × List (ℕ × ℕ))). Extends (log_of s) (log_of r.1))
              (let t' = record t { response_size = count * 4 } in
                if ltb s.response_size (count * 4)
                then returns (false, t')
                else (read_words (logged p) (count - p.header_size / 4) (p.header_size / 4) t'
                    >>= λ t''. returns (true, t'')))
      object_rest s t count e = elim (Bool-cases (ltb s.response_size (count * 4))) [
        | inl long ↦ rw long e
        | inr short ↦
            let t' = record t { response_size = count * 4 } in
            rw short (
              Ensures->>= (λ r. Extends (log_of s) (log_of r))
                (λ r. Extends (log_of s) (log_of r.1)) _ _
                (Ensures-map _ (λ r. Extends-trans (log_of s) (log_of t') (log_of r) e)
                  (read_words-Extends (count - p.header_size / 4) (p.header_size / 4) t'))
                (λ r e'. e'))
      ]

  receive_end-Extends :
      (delay : ℕ) (s : Receiver (D × List (ℕ × ℕ)))
      → Extends (log_of s) (log_of (receive_end (logged p) delay s).1)
  unfolding receive_end
  receive_end-Extends zero s = Extends-refl (log_of s)
  receive_end-Extends (suc delay) s =
      elim (Bool-cases (is_doe_error_asserted (logged p) s.device).0) [
        | inl e ↦ rw e (
            subst
              (λ l.
                Extends l (clear_error (logged p) (is_doe_error_asserted (logged p) s.device).1).1)
              (error-same s.device)
              (clear_error-Extends (is_doe_error_asserted (logged p) s.device).1))
        | inr e ↦
            rw e (subst (Extends (log_of s)) (sym (error-same s.device)) (Extends-refl (log_of s)))
      ]

  -- A step of the loop: where an object is read, and where the loop ends or goes on.
  receive_loop-Extends :
      (delay : ℕ) (s : Receiver (D × List (ℕ × ℕ))) (l : List (ℕ × ℕ))
      → Extends l (log_of s)
      → Ensures (λ r. Extends l (log_of r.1)) (receive_loop (logged p) delay s)
  unfolding receive_loop
  receive_loop-Extends zero s l e =
      Extends-trans l (log_of s) (log_of (receive_end (logged p) 0 s).1) e (receive_end-Extends 0 s)
  receive_loop-Extends (suc delay) s l e =
      let q = logged p in
      let ready = is_doe_data_object_ready_asserted q s.device in
      let error = is_doe_error_asserted q ready.1 in
      let e1 : Extends l ready.1.1 = subst (Extends l) (sym (ready-same s.device)) e in
      let e2 : Extends l error.1.1 = subst (Extends l) (sym (error-same ready.1)) e1 in
      elim (Bool-cases ready.0) [
        | inl there ↦
            rw (receive_loop, there)
              (Ensures->>= (λ r. Extends l (log_of r.1)) (λ r. Extends l (log_of r.1)) _ _
                (Ensures-map _ (λ r. Extends-trans l ready.1.1 (log_of r.1) e1)
                  (read_object-Extends (record s { device = ready.1 })))
                (λ r e'.
                  Ensures-bool (λ t. Extends l (log_of t.1)) r.0 _ _
                    (Extends-trans l (log_of r.1) _ e' (receive_end-Extends (suc delay) r.1)) e'))
        | inr not_there ↦ elim (Bool-cases error.0) [
          | inl dirty ↦
              let s' : Receiver (D × List (ℕ × ℕ)) = record s { device = error.1 } in
              rw (receive_loop, not_there, dirty)
                (Extends-trans l (log_of s') _ e2 (receive_end-Extends (suc delay) s'))
          | inr clean ↦
              rw (receive_loop, not_there, clean)
                (receive_loop-Extends delay (record s { device = q.sleep 30000 error.1 }) l e2)
        ]
      ]

  -- A receive only adds to the record.
  pub device_doe_receive_message-Extends :
      (buffer : List ℕ) (response_size : ℕ) (s : D × List (ℕ × ℕ))
      → Ensures
          (λ r. Extends s.1 (log_of r.1))
          (device_doe_receive_message (logged p) (some buffer) response_size s)
  unfolding device_doe_receive_message
  device_doe_receive_message-Extends buffer size s = elim (Bool-cases (ltb size p.header_size)) [
    | inl small ↦ rw small (Extends-refl s.1)
    | inr enough ↦ elim (Bool-cases (p.doe_extended_offset == 0)) [
      | inl absent ↦ rw (enough, absent, ◌>>=◌, teeio_assert) tt
      | inr present ↦
          rw (enough, present)
            (receive_loop-Extends receive_delay
              (record {
                device = recover_error (logged p) s;
                buffer = buffer;
                response_size = size;
              })
              s.1 (recover_error-Extends s))
    ]
  ]
