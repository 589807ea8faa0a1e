-- ===== src/Queue/FastForward/Cells.antt =====
-- How the cells of a FastForward ring represent a list: the items stand from the tail on, and every
-- other cell holds the sentinel.
use temp_data_structure_benc.Prelude.{
  ℕ, suc, ◌+◌, ◌%◌, ◌≤◌, ◌<◌, ◌≡◌, ◌≢◌, sym, ap, ◌∙◌, List, [], ◌∷◌, ◌++◌, Array, update, arith,
  length, length-append, get_or, get_or_beyond, get_or-append_last, get_or-append_ne, All,
  All-append, update_ne,
}
use native.Mathlib.Decide.{ℕ_discrete}
use native.Mathlib.Nat.{add-zero, mod-add-mod, add-mod_right, mod-eq_of_lt}
use temp_data_structure_benc.Prelude.Ring.{mod-cases}

pub record Cells (cap sentinel : ℕ) (buffer : Array ℕ) (tail head : ℕ) (items : List ℕ)
    : Type 0 where
  pub tail_in : tail < cap
  pub fits : length items ≤ cap
  pub head_at : head ≡ (tail + length items) % cap
  pub proper : All (λ x. x ≢ sentinel) items
  pub cell : (k : ℕ) → k < cap → buffer ((tail + k) % cap) ≡ get_or items k sentinel

pub add-mod_injective :
    {cap t i j : ℕ} → t < cap → i < cap → j < cap → i ≢ j → (t + i) % cap ≢ (t + j) % cap
add-mod_injective {cap} {t} {i} {j} ht hi hj ne =
    omega (arith, mod-cases cap (t + i) (omega arith), mod-cases cap (t + j) (omega arith))

module _ {cap sentinel : ℕ} {buffer : Array ℕ} {tail head : ℕ} where
  pub head_in : {items : List ℕ} → Cells cap sentinel buffer tail head items → head < cap
  head_in {items} c =
      let in_range = c.tail_in in
      omega (
        arith,
        c.head_at,
        c.fits,
        c.tail_in,
        mod-cases cap (tail + length items) (omega (arith, c.fits, c.tail_in)),
      )

  -- The first item stands at the tail.
  pub tail_first :
      {x : ℕ} {rest : List ℕ} → Cells cap sentinel buffer tail head (x ∷ rest) → buffer tail ≡ x
  tail_first {x} c = ground (arith, c.cell 0, c.tail_in, add-zero tail, mod-cases cap tail)

  pub tail_free : Cells cap sentinel buffer tail head [] → buffer tail ≡ sentinel
  tail_free c = ground (arith, c.cell 0, c.tail_in, add-zero tail, mod-cases cap tail)

  -- The cell at the head is free exactly when there is room.
  pub head_free :
      {items : List ℕ}
      → Cells cap sentinel buffer tail head items
      → length items < cap
      → buffer head ≡ sentinel
  head_free {items} c h =
      ap buffer c.head_at
      ∙ c.cell (length items) h
      ∙ get_or_beyond items (length items) sentinel (omega arith)

  pub head_taken :
      {items : List ℕ}
      → Cells cap sentinel buffer tail head items
      → length items ≡ cap
      → buffer head ≢ sentinel
  head_taken {items = []} c h e = absurd (omega (arith, c.tail_in))
  head_taken {items = x ∷ rest} c h e = c.proper.0 (sym (tail_first c) ∙ ap buffer around ∙ e)
    where
      around : tail ≡ head
      around = omega (
        arith,
        c.head_at,
        c.tail_in,
        mod-cases cap (tail + length (x ∷ rest)) (omega (arith, c.tail_in)),
      )

  pub Cells-put :
      {items : List ℕ} {x : ℕ}
      → Cells cap sentinel buffer tail head items
      → x ≢ sentinel
      → length items < cap
      → Cells cap sentinel (update buffer head x) tail ((head + 1) % cap) (items ++ (x ∷ []))
  Cells-put {items} {x} c ne room = record {
    tail_in = c.tail_in;
    fits = omega (arith, length-append items (x ∷ []));
    head_at = omega (
      arith,
      c.head_at,
      c.tail_in,
      length-append items (x ∷ []),
      mod-cases cap (tail + length items) (omega (arith, c.tail_in)),
      mod-cases cap (head + 1) (omega (arith, head_in c)),
      mod-cases cap (tail + length (items ++ (x ∷ [])))
          (omega (arith, c.tail_in, length-append items (x ∷ []))),
    );
    proper = All-append (λ y. y ≢ sentinel) items (x ∷ []) c.proper (ne, tt);
    cell = cell;
  }
    where
      cell :
          (k : ℕ)
          → k < cap
          → update buffer head x ((tail + k) % cap) ≡ get_or (items ++ (x ∷ [])) k sentinel
      cell k h = elim (ℕ_discrete k (length items)) [
        | yes e ↦ ground (arith, c.head_at, get_or-append_last items x sentinel)
        | no other ↦
            update_ne buffer x (λ (q : head ≡ (tail + k) % cap).
              add-mod_injective c.tail_in h room other (sym q ∙ c.head_at))
            ∙ c.cell k h
            ∙ sym (get_or-append_ne items k x sentinel other)
      ]

  pub Cells-get :
      {x : ℕ} {rest : List ℕ}
      → Cells cap sentinel buffer tail head (x ∷ rest)
      → Cells cap sentinel (update buffer tail sentinel) ((tail + 1) % cap) head rest
  Cells-get {x} {rest} c = record {
    tail_in = omega (arith, c.tail_in);
    fits = omega (arith, c.fits);
    head_at = c.head_at ∙ sym turn;
    proper = c.proper.1;
    cell = cell;
  }
    where
      turn : ((tail + 1) % cap + length rest) % cap ≡ (tail + suc (length rest)) % cap
      turn = rw mod-add-mod (ap (λ n. n % cap) (omega arith))

      shift : (k : ℕ) → ((tail + 1) % cap + k) % cap ≡ (tail + suc k) % cap
      shift k = rw mod-add-mod (ap (λ n. n % cap) (omega arith))

      at : (k : ℕ) → k + 1 ≢ cap → k < cap → suc k < cap
      at k more h = omega arith

      last : (k : ℕ) → k + 1 ≡ cap → ((tail + 1) % cap + k) % cap ≡ tail
      last k e =
          shift k
          ∙ ap (λ n. (tail + n) % cap) (omega arith)
          ∙ add-mod_right tail cap
          ∙ mod-eq_of_lt c.tail_in

      cell :
          (k : ℕ)
          → k < cap
          → update buffer tail sentinel (((tail + 1) % cap + k) % cap) ≡ get_or rest k sentinel
      cell k h = elim (ℕ_discrete (k + 1) cap) [
        | yes e ↦ ground (arith, last k e, get_or_beyond rest k sentinel, c.fits, c.tail_in)
        | no more ↦
            update_ne buffer sentinel (λ (q : tail ≡ ((tail + 1) % cap + k) % cap).
              add-mod_injective {j = 0} c.tail_in (at k more h) (omega (arith, c.tail_in))
                (omega arith)
                (sym (shift k)
                  ∙ sym q
                  ∙ sym (mod-eq_of_lt c.tail_in)
                  ∙ ap (λ n. n % cap) (sym (add-zero tail))))
            ∙ ap buffer (shift k)
            ∙ c.cell (suc k) (at k more h)
      ]
