-- ===== src/PowerShell/Bounded.antt =====
-- How many commands of PowerShell run at a time.
use csi_driver_smb.Base.{
  ℕ, suc, ◌+◌, ◌-◌, ◌≤◌, ◌<◌, ◌≡◌, refl, ap, ◌⊎◌, inl, inr, List, [], ◌∷◌, ◌++◌, arith, length,
}
use native.Mathlib.Decide.{dec_lt}
use csi_driver_smb.PowerShell.{
  slots, Phase, waiting, running, Shell, Move, call, start, return, Reached, begun, moved,
}

abbrev pub commands : List Phase → ℕ
commands [] = 0
commands (waiting ∷ ps) = commands ps
commands (running ∷ ps) = suc (commands ps)

commands-append : (ps qs : List Phase) → commands (ps ++ qs) ≡ commands ps + commands qs
commands-append [] qs = omega arith
commands-append (waiting ∷ ps) qs = commands-append ps qs
commands-append (running ∷ ps) qs = omega (arith, commands-append ps qs)

record Counted (s : Shell) : Type 0 where
  same : s.taken ≡ commands s.calls
  few : s.taken ≤ slots

Move-Counted : (s t : Shell) → Move s t → Counted s → Counted t
Move-Counted s t (call e) h = rw e (record { same = h.same; few = h.few })
Move-Counted s t (start before after e lt f) h =
    let n = ap commands e in
    rw f (record {
      same = omega (
        arith,
        h.same,
        n,
        commands-append before (waiting ∷ after),
        commands-append before (running ∷ after),
      );
      few = omega arith;
    })
Move-Counted s t (return before after e lt f) h =
    let n = ap commands e in
    rw f (record {
      same = omega (
        arith,
        h.same,
        n,
        commands-append before (running ∷ after),
        commands-append before after,
      );
      few = omega (arith, h.few);
    })

Reached-Counted : {s : Shell} → Reached s → Counted s
Reached-Counted begun = record { same = refl; few = omega arith }
Reached-Counted (moved {s} {t} r m) = Move-Counted s t m (Reached-Counted r)

none_left : (ps : List Phase) → ¬ (0 < length ps) → ps ≡ []
none_left [] h = refl
none_left (p ∷ ps) h = absurd (h (omega arith))

-- a call whose command runs
first_running :
    (ps : List Phase)
    → 0 < commands ps
    → (before : List Phase) × (after : List Phase) × (ps ≡ before ++ running ∷ after)
first_running [] h = absurd (omega arith)
first_running (waiting ∷ ps) h =
    let (before, after, e) = first_running ps h in
    (waiting ∷ before, after, ap (λ qs. waiting ∷ qs) e)
first_running (running ∷ ps) h = ([], ps, refl)

-- a call that stands at the send
first_waiting :
    (ps : List Phase)
    → commands ps < length ps
    → (before : List Phase) × (after : List Phase) × (ps ≡ before ++ waiting ∷ after)
first_waiting [] h = absurd (omega arith)
first_waiting (waiting ∷ ps) h = ([], ps, refl)
first_waiting (running ∷ ps) h =
    let (before, after, e) = first_waiting ps (omega arith) in
    (running ∷ before, after, ap (λ qs. running ∷ qs) e)

-- Whatever calls of RunPowershellCmd overlap, at most three commands run, and while there are calls one
-- of them that waits can start its command, or one of them whose command runs can return: so never do
-- all of them block.
pub Reached-commands :
    (s : Shell)
    → Reached s
    → (commands s.calls ≤ 3)
      × ((s.calls ≡ [])
          ⊎ ((before : List Phase) × (after : List Phase) × (s.calls ≡ before ++ waiting ∷ after)
              × Move s (record { taken = s.taken + 1; calls = before ++ running ∷ after }))
          ⊎ ((before : List Phase) × (after : List Phase) × (s.calls ≡ before ++ running ∷ after)
              × Move s (record { taken = s.taken - 1; calls = before ++ after })))
Reached-commands s r =
    let h = Reached-Counted r in
    (
      omega (arith, h.same, h.few),
      elim (dec_lt 0 (commands s.calls)) [
        | yes p ↦
            (let (before, after, e) = first_running s.calls p in
              inr (inr (before, after, e, return before after e (omega (arith, h.same)) refl)))
        | no p ↦ elim (dec_lt 0 (length s.calls)) [
          | yes q ↦
              (let (before, after, e) = first_waiting s.calls (omega arith) in
                inr (inl (before, after, e, start before after e (omega (arith, h.same)) refl)))
          | no q ↦ inl (none_left s.calls q)
        ]
      ],
    )
