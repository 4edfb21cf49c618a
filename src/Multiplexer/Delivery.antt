-- ===== src/Multiplexer/Delivery.antt =====
-- A multiplexer loses no message, and no error but ErrNoData, before it is closed.
use kafka_api.Common.{
  ℕ, zero, suc, ◌+◌, ◌≡◌, refl, ap, sym, ◌∙◌, arith, subst, Bool, false, List, [], ◌∷◌, ◌++◌,
  if◌then◌else◌,
}
use kafka_api.Multiplexer.{
  Outcome, Worker, consuming, holding, leaving, gone, Mx, stop_unless, close, leave, System,
  all_consuming, merge, Step, closes, takes, no_data, delivers, stops, leaves, Reach, start, later,
}
use kafka_api.Multiplexer.Closing.{closed_once, stop_count}

-- how many outcomes of a kind there are
unfoldable pub tally : (Outcome → Bool) → List Outcome → ℕ
tally p [] = 0
tally p (o ∷ os) = (if p o then 1 else 0) + tally p os

-- how many the workers hold
unfoldable pub held : (Outcome → Bool) → List Worker → ℕ
held p [] = 0
held p (holding o ∷ ws) = (if p o then 1 else 0) + held p ws
held p (_ ∷ ws) = held p ws

held-append : (p : Outcome → Bool) (xs ys : List Worker) → held p (xs ++ ys) ≡ held p xs + held p ys
unfolding held
held-append p [] ys = omega arith
held-append p (consuming ∷ xs) ys = held-append p xs ys
held-append p (holding o ∷ xs) ys = omega (arith, held-append p xs ys)
held-append p (leaving ∷ xs) ys = held-append p xs ys
held-append p (gone ∷ xs) ys = held-append p xs ys

abbrev Conserved : System → Type 0
Conserved s =
    (p : Outcome → Bool) → tally p s.came ≡ tally p s.went + held p s.workers + tally p s.lost

-- what the workers hold, with the one that moves apart
split :
    (p : Outcome → Bool) (front back : List Worker) (w : Worker)
    → held p (front ++ w ∷ back) ≡ held p (w ∷ []) + held p front + held p back
unfolding held
split p front back consuming = omega (arith, held-append p front (consuming ∷ back))
split p front back (holding o) = omega (arith, held-append p front (holding o ∷ back))
split p front back leaving = omega (arith, held-append p front (leaving ∷ back))
split p front back gone = omega (arith, held-append p front (gone ∷ back))

Step-Conserved : {s t : System} → Step s t → Conserved s → Conserved t
unfolding tally held
Step-Conserved {s} (closes e) h = subst Conserved (sym e) h
Step-Conserved {s} (takes front back o at e) h = subst Conserved (sym e) (λ p.
    omega
      (arith, h p, ap (held p) at, split p front back consuming, split p front back (holding o)))
Step-Conserved {s} (no_data front back at e) h = subst Conserved (sym e) (λ p.
    omega (arith, h p, ap (held p) at, split p front back consuming, split p front back leaving))
Step-Conserved {s} (delivers front back o at e) h = subst Conserved (sym e) (λ p.
    omega
      (arith, h p, ap (held p) at, split p front back consuming, split p front back (holding o)))
Step-Conserved {s} (stops front back o at n e) h = subst Conserved (sym e) (λ p.
    omega (arith, h p, ap (held p) at, split p front back (holding o), split p front back leaving))
Step-Conserved {s} (leaves front back at e) h =
    subst Conserved (sym e)
      (λ p. omega (arith, h p, ap (held p) at, split p front back leaving, split p front back gone))

held-all_consuming : (p : Outcome → Bool) (n : ℕ) → held p (all_consuming n) ≡ 0
unfolding held all_consuming
held-all_consuming p zero = refl
held-all_consuming p (suc n) = held-all_consuming p n

merge-Conserved : (n : ℕ) → Conserved (merge n)
unfolding merge tally
merge-Conserved n p = omega (arith, held-all_consuming p n)

Reach-Conserved : {n : ℕ} {s : System} → Reach n s → Conserved s
Reach-Conserved {n} (start e) = subst Conserved (sym e) (merge-Conserved n)
Reach-Conserved (later r st) = Step-Conserved st (Reach-Conserved r)

close_open : (p : Mx) → (close p).closed ≡ false → p.closed ≡ false
unfolding close stop_unless
close_open p h = ground arith

leave_open : (p : Mx) → (leave p).closed ≡ false → p.closed ≡ false
unfolding leave close stop_unless
leave_open p h = ground arith

IsOpen : System → Type 0
IsOpen s = s.mx.closed ≡ false

Step-IsOpen : {s t : System} → Step s t → IsOpen t → IsOpen s
unfolding IsOpen
Step-IsOpen {s} (closes e) h = close_open s.mx (subst IsOpen e h)
Step-IsOpen (takes front back o at e) h = subst IsOpen e h
Step-IsOpen (no_data front back at e) h = subst IsOpen e h
Step-IsOpen (delivers front back o at e) h = subst IsOpen e h
Step-IsOpen (stops front back o at n e) h = subst IsOpen e h
Step-IsOpen {s} (leaves front back at e) h = leave_open s.mx (subst IsOpen e h)

-- a step from a system whose stop channel is not closed gives nothing up
Step-lost : {s t : System} → s.mx.stops ≡ 0 → Step s t → t.lost ≡ s.lost
Step-lost z (closes e) = ap (λ s. s.lost) e
Step-lost z (takes front back o at e) = ap (λ s. s.lost) e
Step-lost z (no_data front back at e) = ap (λ s. s.lost) e
Step-lost z (delivers front back o at e) = ap (λ s. s.lost) e
Step-lost z (stops front back o at n e) = absurd (n z)
Step-lost z (leaves front back at e) = ap (λ s. s.lost) e

lost_nothing : {n : ℕ} {s : System} → Reach n s → IsOpen s → s.lost ≡ []
unfolding IsOpen merge
lost_nothing (start e) h = ap (λ s. s.lost) e
lost_nothing (later r st) h =
    let before = Step-IsOpen st h in
    Step-lost (closed_once r ∙ ap stop_count before) st ∙ lost_nothing r before

-- While a multiplexer is open, each message, and each error other than ErrNoData, that its consumers
-- returned was returned by Consume, as often, or is still held by a worker. ErrNoData, which the
-- workers drop, is not counted.
pub came-went :
    {n : ℕ} {s : System} (p : Outcome → Bool)
    → Reach n s
    → s.mx.closed ≡ false
    → tally p s.came ≡ tally p s.went + held p s.workers
unfolding tally IsOpen
came-went p r h = omega (arith, Reach-Conserved r p, ap (tally p) (lost_nothing r h))
