-- ===== src/Ipc/LobPublisher/Rings.antt =====
-- What a reader of the file finds after any history of calls.
use mathlib.Core.Path.{subst}
use trading_infrastructure_c.Common.{
  ℕ, ◌+◌, ◌%◌, ◌≤◌, ◌<◌, ◌≡◌, refl, sym, ap, ◌∙◌, inl, inr, Bool, true, false, not, ◌||◌, Option,
  none, some, List, [], ◌∷◌, ◌++◌, length, length-append, get_or, update, ◌==◌, u64_mod,
  if◌then◌else◌, arith, pick, Bool-cases, both_ways, negated, of_negated, get_or-append,
  get_or-snoc,
}
use trading_infrastructure_c.Common.Float.{Float}
use trading_infrastructure_c.Ipc.LobPublisher.{
  capacity, Message, Publisher, Calls, slot_of, fresh_file, open_file, close, publish,
}

module _ (F : Float) where
  pub data Call : Type 0 where
    opened : Calls F → Call
    closed : Call
    published : Message F → Call

  pub run : List Call → Publisher F → Publisher F
  unfolding open_file close publish
  run [] p = p
  run (Call.opened c ∷ cs) p = run cs (open_file F c p).1
  run (Call.closed ∷ cs) p = run cs (close F p)
  run (Call.published m ∷ cs) p = run cs (publish F m p)

  -- The specification: no log while closed, and the messages since it was opened while open.
  abbrev succeeds : Calls F → Bool
  succeeds c = not (not c.opens || not c.truncates || not c.maps)

  abbrev pub open_log : Calls F → Option (List (Message F)) → Option (List (Message F))
  open_log c none = if succeeds c then some [] else none
  open_log c (some ms) = some ms

  abbrev pub publish_log : Message F → Option (List (Message F)) → Option (List (Message F))
  publish_log m none = none
  publish_log m (some ms) = some (ms ++ m ∷ [])

  pub log : List Call → Option (List (Message F)) → Option (List (Message F))
  log [] l = l
  log (Call.opened c ∷ cs) l = log cs (open_log c l)
  log (Call.closed ∷ cs) l = log cs none
  log (Call.published m ∷ cs) l = log cs (publish_log m l)

  -- The number of messages and, of the last 10000 of them, each at its number.
  pub record Holds (p : Publisher F) (ms : List (Message F)) : Type 0 where
    pub fd : p.fd ≡ true
    pub mapped : p.mapped ≡ true
    pub count : p.file.write_seq ≡ length ms
    pub reads :
        (seq : ℕ) (d : Message F)
        → seq < length ms
        → length ms ≤ seq + capacity
        → p.file.slots (seq % capacity) ≡ slot_of F (get_or ms seq d)

  abbrev pub Represents : Publisher F → Option (List (Message F)) → Type 0
  Represents p none = (p.fd ≡ false) × (p.mapped ≡ false)
  Represents p (some ms) = Holds p ms

  opened_none :
      (p : Publisher F) (fails : Bool)
      → p.mapped ≡ false
      → Represents
          (if◌then◌else◌ {A = Bool × Publisher F} fails
            (false, record p { fd = false })
            (true, record { fd = true; mapped = true; file = fresh_file F })).1
          (if not fails then some [] else none)
  opened_none p true e = (refl, e)
  opened_none p false e = record {
    fd = refl;
    mapped = refl;
    count = refl;
    reads = λ seq d l w. absurd (omega arith);
  }

  open_file-Represents :
      (c : Calls F) (p : Publisher F) (l : Option (List (Message F)))
      → Represents p l
      → Represents (open_file F c p).1 (open_log c l)
  unfolding open_file
  open_file-Represents c p none h =
      pick (λ (r : Bool × Publisher F). Represents r.1 (open_log c none)) p.mapped _ _
        (λ e. absurd (both_ways e h.1))
        (λ e. opened_none p (not c.opens || not c.truncates || not c.maps) e)
  open_file-Represents c p (some ms) h =
      pick (λ (r : Bool × Publisher F). Holds r.1 ms) p.mapped _ _ (λ _. h)
        (λ e. absurd (both_ways h.mapped e))

  read_back :
      (m : Message F) (p : Publisher F) (ms : List (Message F))
      → Holds p ms
      → (seq : ℕ) (d : Message F) → seq < length ms + 1
      → length ms + 1 ≤ seq + capacity
      → update p.file.slots (length ms % capacity) (slot_of F m) (seq % capacity)
        ≡ slot_of F (get_or (ms ++ m ∷ []) seq d)
  read_back m p ms h seq d l w = elim (Bool-cases (seq == length ms)) [
    | inl e ↦
        let same : seq ≡ length ms = ground arith in
        let written : (seq % capacity == length ms % capacity) ≡ true = ground arith in
        let found : get_or (ms ++ m ∷ []) seq d ≡ m =
          ap (λ (k : ℕ). get_or (ms ++ m ∷ []) k d) same ∙ get_or-snoc ms m d in
        rw (written, found) refl
    | inr n ↦
        let before : seq < length ms = ground arith in
        let other : (seq % capacity == length ms % capacity) ≡ false = ground arith in
        rw (other, get_or-append ms (m ∷ []) seq d before) (h.reads seq d before (omega arith))
  ]

  pub publish-Holds :
      (m : Message F) (p : Publisher F) (ms : List (Message F))
      → length ms + 1 < u64_mod
      → Holds p ms
      → Holds (publish F m p) (ms ++ m ∷ [])
  unfolding publish
  publish-Holds m p ms b h =
      pick (λ (q : Publisher F). Holds q (ms ++ m ∷ [])) (not p.mapped) _ _
        (λ e. absurd (both_ways h.mapped (negated _ e)))
        (λ _. record {
          fd = h.fd;
          mapped = h.mapped;
          count = omega (arith, h.count, length-append ms (m ∷ []));
          reads = λ seq d l w.
              subst
                (λ k.
                  update p.file.slots (k % capacity) (slot_of F m) (seq % capacity)
                  ≡ slot_of F (get_or (ms ++ m ∷ []) seq d))
                (sym h.count)
                (read_back m p ms h seq d (omega (arith, l, length-append ms (m ∷ [])))
                  (omega (arith, w, length-append ms (m ∷ []))));
        })

  log_length : List Call → Option (List (Message F)) → ℕ
  log_length cs none = length cs
  log_length cs (some ms) = length ms + length cs

  opens_within :
      (c : Calls F) (cs : List Call) (l : Option (List (Message F)))
      → log_length (Call.opened c ∷ cs) l < u64_mod
      → log_length cs (open_log c l) < u64_mod
  unfolding log_length
  opens_within c cs none b =
      pick (λ l. log_length cs l < u64_mod) (succeeds c) _ _ (λ _. omega arith) (λ _. omega arith)
  opens_within c cs (some ms) b = omega arith

  closes_within :
      (cs : List Call) (l : Option (List (Message F)))
      → log_length (Call.closed ∷ cs) l < u64_mod
      → log_length cs none < u64_mod
  unfolding log_length
  closes_within cs none b = omega arith
  closes_within cs (some ms) b = omega arith

  publish_closed :
      (m : Message F) (p : Publisher F) → Represents p none → Represents (publish F m p) none
  unfolding publish
  publish_closed m p h =
      pick (λ (q : Publisher F). Represents q none) (not p.mapped) _ _ (λ _. h)
        (λ e. absurd (both_ways (of_negated _ e) h.1))

  run-Represents_from :
      (cs : List Call) (p : Publisher F) (l : Option (List (Message F)))
      → log_length cs l < u64_mod
      → Represents p l
      → Represents (run cs p) (log cs l)
  unfolding run log log_length
  run-Represents_from [] p l b h = h
  run-Represents_from (Call.opened c ∷ cs) p l b h =
      run-Represents_from cs (open_file F c p).1 (open_log c l) (opens_within c cs l b)
        (open_file-Represents c p l h)
  run-Represents_from (Call.closed ∷ cs) p l b h =
      run-Represents_from cs (close F p) none (closes_within cs l b) (refl, refl)
  run-Represents_from (Call.published m ∷ cs) p none b h =
      run-Represents_from cs (publish F m p) none (omega arith) (publish_closed m p h)
  run-Represents_from (Call.published m ∷ cs) p (some ms) b h =
      run-Represents_from cs (publish F m p) (some (ms ++ m ∷ []))
        (omega (arith, length-append ms (m ∷ []))) (publish-Holds m p ms (omega arith) h)

  -- After any history of fewer than 2^64 calls on a closed publisher, it is closed and holds no descriptor
  -- if it was not opened, or closed after it was; and otherwise the header has the number of messages
  -- published since it was opened, and each of the last 10000 of them stands whole in the slot of its
  -- number.
  pub run-Represents :
      (cs : List Call) (p : Publisher F)
      → length cs < u64_mod
      → p.fd ≡ false
      → p.mapped ≡ false
      → Represents (run cs p) (log cs none)
  unfolding log_length
  run-Represents cs p b f m = run-Represents_from cs p none b (f, m)
