-- ===== src/Multiplexer/Closing.antt =====
-- A multiplexer closes at most once: by Close, or when its last worker leaves.
use kafka_api.Common.{
  ℕ, zero, suc, ◌+◌, ◌-◌, ◌<◌, ◌≡◌, refl, ap, sym, ◌∙◌, arith, subst, Bool, true, false, List, [],
  ◌∷◌, ◌++◌,
}
use kafka_api.Multiplexer.{
  Worker, consuming, holding, leaving, gone, Mx, stop_unless, close, leave, System, all_consuming,
  merge, Step, closes, takes, no_data, delivers, stops, leaves, Reach, start, later,
}

-- the workers that have not left
unfoldable pub active : List Worker → ℕ
active [] = 0
active (gone ∷ ws) = active ws
active (_ ∷ ws) = suc (active ws)

active-append : (xs ys : List Worker) → active (xs ++ ys) ≡ active xs + active ys
unfolding active
active-append [] ys = omega arith
active-append (consuming ∷ xs) ys = omega (arith, active-append xs ys)
active-append (holding o ∷ xs) ys = omega (arith, active-append xs ys)
active-append (leaving ∷ xs) ys = omega (arith, active-append xs ys)
active-append (gone ∷ xs) ys = omega (arith, active-append xs ys)

-- how often the stop channel was closed
abbrev pub stop_count : Bool → ℕ
stop_count true = 1
stop_count false = 0

-- p is the state of a multiplexer of n consumers
record IsMx (n : ℕ) (p : Mx) : Type 0 where
  stops : p.stops ≡ stop_count p.closed
  left : p.workers ≡ 0 → 0 < n → p.closed ≡ true

record IsSystem (s : System) : Type 0 where
  mx : IsMx s.merged s.mx
  counted : s.mx.workers ≡ active s.workers

close-IsMx : (n : ℕ) (p : Mx) → IsMx n p → IsMx n (close p)
unfolding close stop_unless
close-IsMx n p h = ground arith

close-workers : (p : Mx) → (close p).workers ≡ p.workers
unfolding close stop_unless
close-workers p = ground arith

leave-IsMx : (n : ℕ) (p : Mx) → 0 < p.workers → IsMx n p → IsMx n (leave p)
unfolding leave close stop_unless
leave-IsMx n p more h = ground arith

leave-workers : (p : Mx) → (leave p).workers ≡ p.workers - 1
unfolding leave close stop_unless
leave-workers p = ground arith

-- a worker that moves on stays active
moved :
    (front back : List Worker) (w w' : Worker)
    → active (w ∷ []) ≡ active (w' ∷ [])
    → active (front ++ w' ∷ back) ≡ active (front ++ w ∷ back)
unfolding active
moved front back w w' e =
    rw (active-append front (w' ∷ back), active-append front (w ∷ back))
      (omega (arith, e, active-append (w ∷ []) back, active-append (w' ∷ []) back))

still :
    (s : System) (front back : List Worker) (w w' : Worker)
    → s.workers ≡ front ++ w ∷ back
    → active (w ∷ []) ≡ active (w' ∷ [])
    → s.mx.workers ≡ active s.workers
    → s.mx.workers ≡ active (front ++ w' ∷ back)
still s front back w w' at e h = h ∙ ap active at ∙ sym (moved front back w w' e)

departed :
    (front back : List Worker)
    → active (front ++ leaving ∷ back) ≡ suc (active (front ++ gone ∷ back))
unfolding active
departed front back =
    omega (arith, active-append front (leaving ∷ back), active-append front (gone ∷ back))

leaves-IsSystem :
    (s : System) (front back : List Worker)
    → s.workers ≡ front ++ leaving ∷ back
    → IsSystem s
    → IsSystem (record s { mx = leave s.mx; workers = front ++ gone ∷ back })
leaves-IsSystem s front back at h =
    let n : s.mx.workers ≡ suc (active (front ++ gone ∷ back)) =
      h.counted ∙ ap active at ∙ departed front back in
    record {
      mx = leave-IsMx s.merged s.mx (omega (arith, n)) h.mx;
      counted = omega (arith, n, leave-workers s.mx);
    }

Step-IsSystem : {s t : System} → Step s t → IsSystem s → IsSystem t
unfolding active
Step-IsSystem {s} (closes e) h =
    subst IsSystem (sym e)
      (record { mx = close-IsMx s.merged s.mx h.mx; counted = close-workers s.mx ∙ h.counted })
Step-IsSystem {s} (takes front back o at e) h =
    subst IsSystem (sym e)
      (record { mx = h.mx; counted = still s front back consuming (holding o) at refl h.counted })
Step-IsSystem {s} (no_data front back at e) h =
    subst IsSystem (sym e)
      (record { mx = h.mx; counted = still s front back consuming leaving at refl h.counted })
Step-IsSystem {s} (delivers front back o at e) h =
    subst IsSystem (sym e)
      (record { mx = h.mx; counted = still s front back (holding o) consuming at refl h.counted })
Step-IsSystem {s} (stops front back o at n e) h =
    subst IsSystem (sym e)
      (record { mx = h.mx; counted = still s front back (holding o) leaving at refl h.counted })
Step-IsSystem {s} (leaves front back at e) h =
    subst IsSystem (sym e) (leaves-IsSystem s front back at h)

active-all_consuming : (n : ℕ) → active (all_consuming n) ≡ n
unfolding active all_consuming
active-all_consuming zero = refl
active-all_consuming (suc n) = omega (arith, active-all_consuming n)

merge-IsSystem : (n : ℕ) → IsSystem (merge n)
unfolding merge
merge-IsSystem n = record {
  mx = record { stops = refl; left = λ e h. absurd (omega arith) };
  counted = sym (active-all_consuming n);
}

Reach-IsSystem : {n : ℕ} {s : System} → Reach n s → IsSystem s
Reach-IsSystem {n} (start e) = subst IsSystem (sym e) (merge-IsSystem n)
Reach-IsSystem (later r st) = Step-IsSystem st (Reach-IsSystem r)

-- However workers, Close and Consume interleave, the stop channel was closed once if the
-- multiplexer is closed, and else not at all: a second close, which would panic, never happens.
pub closed_once : {n : ℕ} {s : System} → Reach n s → s.mx.stops ≡ stop_count s.mx.closed
closed_once r = (Reach-IsSystem r).mx.stops

merged-Step : {s t : System} → Step s t → t.merged ≡ s.merged
merged-Step (closes e) = ap (λ s. s.merged) e
merged-Step (takes front back o at e) = ap (λ s. s.merged) e
merged-Step (no_data front back at e) = ap (λ s. s.merged) e
merged-Step (delivers front back o at e) = ap (λ s. s.merged) e
merged-Step (stops front back o at n e) = ap (λ s. s.merged) e
merged-Step (leaves front back at e) = ap (λ s. s.merged) e

merged-Reach : {n : ℕ} {s : System} → Reach n s → s.merged ≡ n
unfolding merge
merged-Reach (start e) = ap (λ s. s.merged) e
merged-Reach (later r st) = merged-Step st ∙ merged-Reach r

-- A multiplexer that merged at least one consumer is closed as soon as all its workers have left.
pub closed_when_left :
    {n : ℕ} {s : System} → Reach n s → 0 < n → active s.workers ≡ 0 → s.mx.closed ≡ true
closed_when_left r h none_left =
    let i = Reach-IsSystem r in i.mx.left (i.counted ∙ none_left) (rw (merged-Reach r) h)
