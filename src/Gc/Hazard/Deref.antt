-- ===== src/Gc/Hazard/Deref.antt =====
-- derefLink of cds/gc/hzp/hzp.h against the scans: every access to a link or to a guard is a step.
-- The accesses are taken to be sequentially consistent.
pub mod Invariant
pub mod Safety
mod Tests
use temp_data_structure_benc.Prelude.{
  ℕ, zero, suc, ◌≡◌, ◌≢◌, ◌<◌, ◌⊎◌, ◌&&◌, ◌++◌, ◌∷◌, Bool, true, false, not, List, [], Array,
  update, ◌==◌, if◌then◌else◌,
}
use temp_data_structure_benc.Prelude.Sort.{contains}

-- Where the owner of a guard stands.
pub data Guard : Type 0 where
  idle : Guard
  load : (link : ℕ) → Guard  -- derefLink: before the first load
  store : (link p : ℕ) → Guard  -- derefLink: before the store to the guard
  check : (link p : ℕ) → Guard  -- derefLink: before the second load
  holding : (p : ℕ) → Guard  -- derefLink has returned `p`

-- Where a thread stands in classic_scan: `i` guards have been loaded into `plist`.
pub data Scanner : Type 0 where
  resting : Scanner
  collecting : (i : ℕ) (plist : List ℕ) → Scanner

-- The links of the containers, the guards of all threads, the retired pointers of each thread, and
-- which objects live.
pub record System : Type 0 where
  pub link : Array ℕ
  pub hzp : Array ℕ
  pub guard : Array Guard
  pub scanner : Array Scanner
  pub retired : Array (List ℕ)
  pub live : Array Bool

abbrev pub start : System
start = record {
  link = λ _. 0;
  hzp = λ _. 0;
  guard = λ _. Guard.idle;
  scanner = λ _. Scanner.resting;
  retired = λ _. [];
  live = λ _. false;
}

-- Those of a thread's retired pointers that are kept.
abbrev pub keep : List ℕ → List ℕ → List ℕ
keep plist [] = []
keep plist (p ∷ rest) = let later = keep plist rest in if contains plist p then p ∷ later else later

-- One access. There are `guards` guards. A container links objects that live and are not retired,
-- and retires an object once, after the last link to it is gone.
pub data Step (guards : ℕ) (s : System) : System → Type 0 where
  begin :
      (g link : ℕ)
      → g < guards
      → s.guard g ≡ Guard.idle
      → Step guards s (record s { guard = update s.guard g (Guard.load link) })
  load_link :
      (g link : ℕ)
      → g < guards
      → s.guard g ≡ Guard.load link
      → Step guards s (record s { guard = update s.guard g (Guard.store link (s.link link)) })
  store_guard :
      (g link p : ℕ)
      → g < guards
      → s.guard g ≡ Guard.store link p
      → Step guards s
          (record s { guard = update s.guard g (Guard.check link p); hzp = update s.hzp g p })
  check_same :
      (g link p : ℕ)
      → g < guards
      → s.guard g ≡ Guard.check link p
      → s.link link ≡ p
      → Step guards s (record s { guard = update s.guard g (Guard.holding p) })
  check_other :
      (g link p : ℕ)
      → g < guards
      → s.guard g ≡ Guard.check link p
      → s.link link ≢ p
      → Step guards s (record s { guard = update s.guard g (Guard.load link) })
  clear_guard :
      (g p : ℕ)
      → g < guards
      → s.guard g ≡ Guard.holding p
      → Step guards s (record s { guard = update s.guard g Guard.idle; hzp = update s.hzp g 0 })
  allocate : (p : ℕ) → s.live p ≡ false → Step guards s (record s { live = update s.live p true })
  write_link :
      (link p : ℕ)
      → (p ≡ 0) ⊎ ((s.live p ≡ true) × ((t : ℕ) → contains (s.retired t) p ≡ false))
      → Step guards s (record s { link = update s.link link p })
  retire :
      (t p : ℕ)
      → s.scanner t ≡ Scanner.resting
      → s.live p ≡ true
      → ((link : ℕ) → s.link link ≢ p)
      → ((u : ℕ) → contains (s.retired u) p ≡ false)
      → Step guards s (record s { retired = update s.retired t (s.retired t ++ (p ∷ [])) })
  begin_scan :
      (t : ℕ)
      → s.scanner t ≡ Scanner.resting
      → Step guards s (record s { scanner = update s.scanner t (Scanner.collecting 0 []) })
  load_guard :
      (t i : ℕ) (plist : List ℕ)
      → s.scanner t ≡ Scanner.collecting i plist
      → i < guards
      → Step guards s (record s {
        scanner =
            update s.scanner t (
              Scanner.collecting (suc i) (if s.hzp i == 0 then plist else plist ++ (s.hzp i ∷ [])));
      })
  delete_rest :
      (t : ℕ) (plist : List ℕ)
      → s.scanner t ≡ Scanner.collecting guards plist
      → Step guards s (record s {
        scanner = update s.scanner t Scanner.resting;
        retired = update s.retired t (keep plist (s.retired t));
        live = λ p. if contains (s.retired t) p && not (contains plist p) then false else s.live p;
      })

pub data Reach (guards : ℕ) : System → Type 0 where
  here : Reach guards start
  next : {s t : System} → Reach guards s → Step guards s t → Reach guards t
