-- ===== src/Bytes/Filling.antt =====
-- Chains of writes: each step puts its bytes behind what the steps before have put.
use kcf_old.Base.{ℕ, ◌+◌, ◌≤◌, ◌≡◌, ◌∙◌, arith, Bool, List, [], ◌++◌, append_assoc}
use kcf_old.Base.{length, drop, length-append, length-drop, drop-drop, append-nil, if◌then◌else◌}

-- `mk buf off` is the state of a chain: a buffer and an offset, perhaps with a flag.
module _ {S : Type 0} (mk : List ℕ → ℕ → S) (size : ℕ) where
  -- The step `f` writes `bs`.
  pub record Puts (bs : List ℕ) (f : S → S) : Type 0 where
    pub run :
        (pre gap : List ℕ)
        → length pre + length bs ≤ size
        → length bs ≤ length gap
        → f (mk (pre ++ gap) (length pre))
          ≡ mk ((pre ++ bs) ++ drop (length bs) gap) (length (pre ++ bs))

  pub Puts-nil : Puts [] (λ s. s)
  Puts-nil = record { run = λ pre gap h g. rw append-nil }

  pub Puts-append :
      {bs cs : List ℕ} {f g : S → S} → Puts bs f → Puts cs g → Puts (bs ++ cs) (λ s. g (f s))
  Puts-append {bs} {cs} {f} {g} pf pg = record {
    run = λ pre gap h room.
        rw
          (pf.run pre gap (omega (arith, length-append bs cs)) (omega (arith, length-append bs cs)))
          (pg.run (pre ++ bs) (drop (length bs) gap)
              (omega (arith, length-append pre bs, length-append bs cs))
              (omega (arith, length-drop (length bs) gap, length-append bs cs))
            ∙ rw (drop-drop, length-append bs cs, append_assoc pre bs cs));
  }

  pub Puts-if :
      (b : Bool) {bs cs : List ℕ} {f g : S → S}
      → Puts bs f
      → Puts cs g
      → Puts (if b then bs else cs) (λ s. if b then f s else g s)
  Puts-if Bool.true pf pg = pf
  Puts-if Bool.false pf pg = pg

  -- From offset 0 the chain leaves its bytes at the buffer's front.
  pub Puts-front :
      {bs : List ℕ} {f : S → S} (buf : List ℕ)
      → Puts bs f
      → length bs ≤ size
      → length bs ≤ length buf
      → f (mk buf 0) ≡ mk (bs ++ drop (length bs) buf) (length bs)
  Puts-front buf p h g = p.run [] buf (omega arith) g
