-- ===== src/Gc/Hazard/Deref/Tests.antt =====
-- An object that is unlinked, retired and scanned for while a guard holds it.
use temp_data_structure_benc.Prelude.{◌≡◌, true, refl, [], ◌∷◌, inl, inr, arith}
use temp_data_structure_benc.Gc.Hazard.Deref.{
  System, begin, load_link, store_guard, check_same, allocate, write_link, retire, begin_scan,
  load_guard, delete_rest, Reach, here, next,
}
use temp_data_structure_benc.Gc.Hazard.Deref.Safety.{holding_lives}

-- The object 5 behind the link 3, held by the guard 0.
abbrev held : (s : System) × Reach 1 s
held = (
  _,
  next
      (next
        (next
          (next (next (next here (allocate 5 refl)) (write_link 3 5 (inr (refl, λ t. refl))))
            (begin 0 3 (omega arith) refl))
          (load_link 0 3 (omega arith) refl))
        (store_guard 0 3 5 (omega arith) refl))
      (check_same 0 3 5 (omega arith) refl refl),
)

abbrev scanned : (s : System) × Reach 1 s
scanned = (
  _,
  next
      (next
        (next
          (next (next held.1 (write_link 3 0 (inl refl)))
            (retire 1 5 refl refl (λ link. ground arith) (λ u. refl)))
          (begin_scan 1 refl))
        (load_guard 1 0 [] refl (omega arith)))
      (delete_rest 1 (5 ∷ []) refl),
)

scanned_state : (scanned.0.live 5 ≡ true) × (scanned.0.retired 1 ≡ 5 ∷ [])
scanned_state = (refl, refl)

holding_lives_example : (scanned.0.live 5 ≡ true) × (scanned.0.hzp 0 ≡ 5)
holding_lives_example = holding_lives scanned.1 0 5 refl (omega arith)
