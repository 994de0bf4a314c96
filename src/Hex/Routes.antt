-- ===== src/Hex/Routes.antt =====
-- newRouteId: what the entropy source may answer.
use pairfob.Prelude.{ℕ, zero, suc, ◌+◌, ◌<◌, ◌≡◌, false, some, List, arith, Bool-cases, inl, inr}
use pairfob.Hex.{Drawn, is_zero_route, draw_route, new_route_id}

draw_route-nonzero :
    (random : ℕ → ℕ → List ℕ) (tries draw : ℕ) (d : Drawn)
    → draw_route random tries draw ≡ some d
    → is_zero_route d.route ≡ false
unfolding draw_route
draw_route-nonzero random zero draw d h = cc
draw_route-nonzero random (suc tries) draw d h =
    elim (Bool-cases (is_zero_route (random draw 16))) [
      | inl z ↦ draw_route-nonzero random tries (draw + 1) d (rw z at h)
      | inr nz ↦ ground arith
    ]

-- A new route is never the zero route, which marks frames without one.
pub new_route_id-nonzero :
    (random : ℕ → ℕ → List ℕ) (draw : ℕ) (d : Drawn)
    → new_route_id random draw ≡ some d
    → is_zero_route d.route ≡ false
unfolding new_route_id
new_route_id-nonzero random draw d h = draw_route-nonzero random 8 draw d h

draw_route_total :
    (random : ℕ → ℕ → List ℕ) (tries draw k : ℕ)
    → k < tries
    → is_zero_route (random (draw + k) 16) ≡ false
    → (d : Drawn) × (draw_route random tries draw ≡ some d)
unfolding draw_route
draw_route_total random zero draw k h nz = elim h [ ]
draw_route_total random (suc tries) draw zero h nz =
    (record { route = random draw 16; draw = draw + 1 }, ground arith)
draw_route_total random (suc tries) draw (suc k) h nz =
    elim (Bool-cases (is_zero_route (random draw 16))) [
      | inl z ↦
          let next : draw + 1 + k ≡ draw + suc k = omega arith in
          rw z (draw_route_total random tries (draw + 1) k (omega arith) (rw next nz))
      | inr other ↦ (record { route = random draw 16; draw = draw + 1 }, rw other)
    ]

-- It gives one as soon as one of eight draws is not all zeros.
pub new_route_id_total :
    (random : ℕ → ℕ → List ℕ) (draw k : ℕ)
    → k < 8
    → is_zero_route (random (draw + k) 16) ≡ false
    → (d : Drawn) × (new_route_id random draw ≡ some d)
unfolding new_route_id
new_route_id_total random draw k h nz = draw_route_total random 8 draw k h nz
