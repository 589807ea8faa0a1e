-- ===== src/Bag/Remove/Own.antt =====
-- The loop of `tryRemoveAny` over the thread's own blocks returns.
use temp_data_structure_benc.Prelude.{
  ℕ, zero, suc, ◌+◌, ◌-◌, ◌≤◌, ◌<◌, ◌≡◌, ◌≢◌, ◌∙◌, inl, inr, refl, sym, ap, true, ◌&&◌, List, [],
  ◌∷◌, Array, arith, ◌==◌, ◌||◌, if_elim, update, update_self,
}
use mathlib.Core.Path.{subst}
use native.Mathlib.Decide.{ℕ_discrete}
use temp_data_structure_benc.Bag.State.{Link, plain, Tls, Bag, set_item}
use temp_data_structure_benc.Bag.Remove.{steal_rounds, settle, remove_own, try_remove_any}
use temp_data_structure_benc.Bag.Remove.Lists.{Walks, Walks-first, Walks-next, first}
use temp_data_structure_benc.Bag.Remove.Ready.{
  Ready, Clean, IsFree, taken-Leaves, taken-Ready, still_empty,
}
use temp_data_structure_benc.Bag.Remove.Scan.{Ends, Leaves-Ends}
use temp_data_structure_benc.Bag.Remove.Unlink.{
  rest_lists, unlinked_bag, unlinked-Valid, unlinked-Leaves, unlink_own_lem,
}
use temp_data_structure_benc.Bag.Remove.Ending.{GoesOn, steals}

module _ (size threads : ℕ) (pos : 0 < size) where
  -- The loop over the slots of the thread's block, from below the slot `above` on.
  own_slots :
      (above block : ℕ) (b : Bag) (ls : Array (List ℕ)) (t : Tls)
      → Ready size threads b ls t
      → block ≢ 0
      → b.heads t.thread_id ≡ block
      → above ≤ size
      → ((slot : ℕ) → above ≤ slot → slot < size → b.items block slot ≡ b.sentinel)
      → (Clean size b block
          → GoesOn size threads pos t.thread_id b ls
              (λ walk fuel. remove_own size threads walk fuel 0 block b t))
      → GoesOn size threads pos t.thread_id b ls
          (λ walk fuel. remove_own size threads walk fuel above block b t)
  unfolding remove_own
  own_slots zero block b ls t r nz is_first fits free bottom =
      bottom (λ slot lt. free slot (omega arith) lt)
  own_slots (suc above) block b ls t r nz is_first fits free bottom =
      elim (ℕ_discrete (b.items block above) b.sentinel) [
        | yes e ↦
            let (n, f) =
              own_slots above block b ls t r nz is_first (omega arith)
                (λ slot from lt. elim (ℕ_discrete above slot) [
                  | yes same ↦ subst (λ k. b.items block k ≡ b.sentinel) same e
                  | no ne ↦ free slot (omega arith) lt
                ])
                bottom in
            (suc n, lower n e f)
        | no ne ↦ (1, takes ne)
      ]
    where
      slot : ℕ
      slot = suc above - 1

      slot_is : slot ≡ above
      slot_is = omega arith

      stays_free :
          (k : ℕ)
          → slot ≤ k
          → k < size
          → set_item b.items block slot b.sentinel (b.heads t.thread_id) k ≡ b.sentinel
      stays_free k from lt =
          subst (λ m. set_item b.items block slot b.sentinel m k ≡ b.sentinel) (sym is_first)
            (elim (ℕ_discrete slot k) [
              | yes e ↦
                  ap (λ (f : Array ℕ). f k)
                    (update_self b.items block (update (b.items block) slot b.sentinel))
                  ∙ ap (update (b.items block) slot b.sentinel) (sym e)
                  ∙ update_self (b.items block) slot b.sentinel
              | no ne ↦ still_empty size threads b ls block slot block k (free k (omega arith) lt)
            ])

      lower :
          (n : ℕ)
          → b.items block above ≡ b.sentinel
          → ((walk fuel : ℕ)
              → n ≤ walk
              → n ≤ fuel
              → Ends size threads t.thread_id b ls
                  (remove_own size threads walk fuel above block b t))
          → (walk fuel : ℕ) → suc n ≤ walk
          → suc n ≤ fuel
          → Ends size threads t.thread_id b ls
              (remove_own size threads walk fuel (suc above) block b t)
      lower n e f walk zero le more = absurd (omega arith)
      lower n e f walk (suc fuel) le more =
          if_elim (Ends size threads t.thread_id b ls)
            (block == 0 || suc above == 0 && (b.next block).ptr == 0)
            (λ z. absurd (ground (arith, z)))
            (λ _.
              if_elim (Ends size threads t.thread_id b ls) (suc above == 0)
                (λ z. absurd (ground (arith, z)))
                (λ _.
                  if_elim (Ends size threads t.thread_id b ls) (b.items block slot == b.sentinel)
                    (λ _.
                      subst
                        (λ k.
                          Ends size threads t.thread_id b ls
                            (remove_own size threads walk fuel k block b t))
                        (sym slot_is) (f walk fuel (omega arith) (omega arith)))
                    (λ z. absurd (ground (arith, z, ap (b.items block) slot_is ∙ e)))))

      takes :
          b.items block above ≢ b.sentinel
          → (walk fuel : ℕ) → 1 ≤ walk
          → 1 ≤ fuel
          → Ends size threads t.thread_id b ls
              (remove_own size threads walk fuel (suc above) block b t)
      takes ne walk zero le more = absurd (omega arith)
      takes ne walk (suc fuel) le more =
          if_elim (Ends size threads t.thread_id b ls)
            (block == 0 || suc above == 0 && (b.next block).ptr == 0)
            (λ z. absurd (ground (arith, z)))
            (λ _.
              if_elim (Ends size threads t.thread_id b ls) (suc above == 0)
                (λ z. absurd (ground (arith, z)))
                (λ _.
                  if_elim (Ends size threads t.thread_id b ls) (b.items block slot == b.sentinel)
                    (λ z. absurd (ne (sym (ap (b.items block) slot_is) ∙ ground (arith, z))))
                    (λ _.
                      let moved = taken-Ready size threads b ls block slot t r in
                      Ends.removed ls (taken-Leaves size threads b ls block slot t.thread_id)
                        (record {
                          valid = moved.valid;
                          mine = (
                            r.mine.0,
                            omega arith,
                            λ _ k from lt. stays_free k from lt,
                            inl (λ z. nz (sym is_first ∙ z)),
                          );
                          place = moved.place;
                        })
                        refl)))

  own_steals :
      (above block : ℕ) (b : Bag) (ls : Array (List ℕ)) (t : Tls)
      → Ready size threads b ls t
      → (block == 0 || above == 0 && (b.next block).ptr == 0) ≡ true
      → GoesOn size threads pos t.thread_id b ls
          (λ walk fuel. remove_own size threads walk fuel above block b t)
  unfolding remove_own
  own_steals above block b ls t r e =
      let (n, f) = steals size threads pos b ls t r in (suc n, call n f)
    where
      call :
          (n : ℕ)
          → ((walk fuel : ℕ)
              → n ≤ walk
              → n ≤ fuel
              → Ends size threads t.thread_id b ls (steal_rounds size threads walk walk 0 0 b t))
          → (walk fuel : ℕ) → suc n ≤ walk
          → suc n ≤ fuel
          → Ends size threads t.thread_id b ls (remove_own size threads walk fuel above block b t)
      call n f walk zero le more = absurd (omega arith)
      call n f walk (suc fuel) le more =
          if_elim (Ends size threads t.thread_id b ls)
            (block == 0 || above == 0 && (b.next block).ptr == 0)
            (λ _. f walk n (omega arith) (omega arith)) (λ z. absurd (cc (z, e)))

  -- The thread's block holds no item and is not the last of its list.
  own_unlinks :
      (n m : ℕ) (ys : List ℕ) (b : Bag) (ls : Array (List ℕ)) (t : Tls)
      → (r : Ready size threads b ls t) → (e : ls t.thread_id ≡ n ∷ m ∷ ys) → Clean size b n
      → GoesOn size threads pos t.thread_id
          (unlinked_bag b t n m ys)
          (rest_lists b t ls n m ys r.valid e)
          (λ walk fuel.
            remove_own size threads walk fuel size m
              (unlinked_bag b t n m ys)
              (record t { thread_block = m; thread_head = size }))
      → GoesOn size threads pos t.thread_id b ls
          (λ walk fuel. remove_own size threads walk fuel 0 n b t)
  unfolding remove_own settle
  own_unlinks n m ys b ls t r e clean (k, f) = (suc k + 2, call)
    where
      link : (n ≢ 0) × (b.next n ≡ plain m)
      link =
          Walks-next b.next (b.heads t.thread_id) [] n (m ∷ ys)
            (subst (Walks b.next (b.heads t.thread_id)) e (r.valid.walks t.thread_id))

      m_nz : m ≢ 0
      m_nz =
          (Walks-next b.next (b.heads t.thread_id) (n ∷ []) m ys
            (subst (Walks b.next (b.heads t.thread_id)) e (r.valid.walks t.thread_id))).0

      call :
          (walk fuel : ℕ)
          → suc k + 2 ≤ walk
          → suc k + 2 ≤ fuel
          → Ends size threads t.thread_id b ls (remove_own size threads walk fuel 0 n b t)
      call walk zero le more = absurd (omega arith)
      call walk (suc fuel) le more =
          let ptr : (b.next n).ptr ≡ m = ap (λ (l : Link). l.ptr) link.1 in
          if_elim (Ends size threads t.thread_id b ls) (n == 0 || 0 == 0 && (b.next n).ptr == 0)
            (λ z. absurd (ground (arith, z, link, m_nz, ptr)))
            (λ _.
              subst
                (λ o.
                  Ends size threads t.thread_id b ls
                    (settle size threads (remove_own size threads walk fuel) o))
                (sym (unlink_own_lem b t ls n m ys r.valid e walk (omega arith)))
                (Leaves-Ends (unlinked-Leaves b t ls n m ys r.valid e size threads clean)
                  (f walk fuel (omega arith) (omega arith))))

  own_lists :
      (ns : List ℕ) (above : ℕ) (b : Bag) (ls : Array (List ℕ)) (t : Tls)
      → Ready size threads b ls t
      → ls t.thread_id ≡ ns
      → above ≤ size
      → IsFree size b t.thread_id above
      → GoesOn size threads pos t.thread_id b ls
          (λ walk fuel. remove_own size threads walk fuel above (first ns) b t)
  own_lists [] above b ls t r e le free = own_steals above 0 b ls t r refl
  own_lists (n ∷ []) above b ls t r e le free =
      let chain = subst (Walks b.next (b.heads t.thread_id)) e (r.valid.walks t.thread_id) in
      let link = Walks-next b.next (b.heads t.thread_id) [] n [] chain in
      own_slots above n b ls t r link.0 chain.0 le
        (subst (λ k. (slot : ℕ) → above ≤ slot → slot < size → b.items k slot ≡ b.sentinel) chain.0
          (free (λ z. link.0 (sym chain.0 ∙ z))))
        (λ _. own_steals 0 n b ls t r (rw link.1 (ground arith)))
  own_lists (n ∷ m ∷ ys) above b ls t r e le free =
      let chain = subst (Walks b.next (b.heads t.thread_id)) e (r.valid.walks t.thread_id) in
      let link = Walks-next b.next (b.heads t.thread_id) [] n (m ∷ ys) chain in
      own_slots above n b ls t r link.0 chain.0 le
        (subst (λ k. (slot : ℕ) → above ≤ slot → slot < size → b.items k slot ≡ b.sentinel) chain.0
          (free (λ z. link.0 (sym chain.0 ∙ z))))
        (λ clean. own_unlinks n m ys b ls t r e clean (
          own_lists (m ∷ ys) size (unlinked_bag b t n m ys) (rest_lists b t ls n m ys r.valid e)
            (record t { thread_block = m; thread_head = size })
            (record {
              valid = unlinked-Valid b t ls n m ys r.valid e;
              mine = (
                sym (update_self b.heads t.thread_id m),
                omega arith,
                λ _ slot from lt. absurd (omega arith),
                inr refl,
              );
              place =
                  (unlinked-Leaves b t ls n m ys r.valid e size threads clean).places t.steal_index
                    t.steal_block t.steal_prev t.steal_head r.place;
            })
            (update_self ls t.thread_id (m ∷ ys)) (omega arith)
            (λ _ slot from lt. absurd (omega arith))))

  -- A call returns, for all fuel from some amount on.
  pub try_remove_any-Ends :
      (b : Bag) (ls : Array (List ℕ)) (t : Tls)
      → Ready size threads b ls t
      → (n : ℕ) × ((fuel : ℕ)
          → n ≤ fuel
          → Ends size threads t.thread_id b ls (try_remove_any size threads fuel b t))
  unfolding try_remove_any
  try_remove_any-Ends b ls t r =
      let block : t.thread_block ≡ first (ls t.thread_id) =
        r.mine.0
        ∙ Walks-first b.next (b.heads t.thread_id) (ls t.thread_id) (r.valid.walks t.thread_id) in
      let (n, f) = own_lists (ls t.thread_id) t.thread_head b ls t r refl r.mine.1 r.mine.2 in
      (
        n,
        λ fuel le.
            subst
              (λ k.
                Ends size threads t.thread_id b ls
                  (remove_own size threads fuel fuel t.thread_head k b t))
              (sym block) (f fuel fuel le le),
      )
