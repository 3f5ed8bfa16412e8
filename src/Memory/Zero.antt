-- ===== src/Memory/Zero.antt =====
-- Zeroing the fields of an object.
use clojit_cvm.Common.{
  ℕ, zero, suc, ◌+◌, ◌*◌, ◌^◌, ◌<◌, ◌≡◌, ◌≢◌, refl, ◌∙◌, subst, arith, some, u64, ok,
}
use clojit_cvm.Memory.{Mem, update, store_lem}
use clojit_cvm.Memory.Alloc.{zero_fields}

abbrev pub Mapped : Mem → ℕ → Type 0
Mapped m a = (v : ℕ) × (m a ≡ some v)

pub update_self : (m : Mem) (a v : ℕ) → update m a v a ≡ some v
update_self m a v = ground arith

pub update_ne : (m : Mem) (a v b : ℕ) → b ≢ a → update m a v b ≡ m b
update_ne m a v b ne = ground arith

-- The memory `m'` is `m` with zeros in `n` words from `a` on.
pub record Zeroed (n a : ℕ) (m m' : Mem) : Type 0 where
  pub zeros : (i : ℕ) → i < n → m' (a + 8 * i) ≡ some 0
  pub kept : (b : ℕ) → ((i : ℕ) → i < n → b ≢ a + 8 * i) → m' b ≡ m b

pub zero_fields_lem :
    (n a : ℕ) (m : Mem)
    → a + 8 * n < 2 ^ 64
    → ((i : ℕ) → i < n → Mapped m (a + 8 * i))
    → (m' : Mem) × (zero_fields n a m ≡ ok m') × Zeroed n a m m'
unfolding zero_fields
zero_fields_lem zero a m fits mapped =
    (m, refl, record { zeros = λ i h. absurd (omega arith); kept = λ b ne. refl })
zero_fields_lem (suc n) a m fits mapped =
    let (m', runs, rest) = zero_fields_lem n (a + 8) (update m a 0) (omega arith) later_mapped in
    (m', runs_of m' runs, record { zeros = zeros_of m' rest; kept = kept_of m' rest })
  where
    shift : (i : ℕ) → a + 8 + 8 * i ≡ a + 8 * suc i
    shift i = omega arith

    here : Mapped m a
    here =
        let (v, is) = mapped 0 (omega arith) in
        let start : a + 8 * 0 ≡ a = omega arith in (v, subst (λ (b : ℕ). m b ≡ some v) start is)

    runs_of :
        (m' : Mem) → zero_fields n (a + 8) (update m a 0) ≡ ok m' → zero_fields (suc n) a m ≡ ok m'
    runs_of m' runs =
        let (old, is) = here in
        let next : u64 (a + 8) ≡ a + 8 = omega arith in rw (store_lem m a 0 old is, next) runs

    later_mapped : (i : ℕ) → i < n → Mapped (update m a 0) (a + 8 + 8 * i)
    later_mapped i h =
        let (v, is) = mapped (suc i) (omega arith) in
        (v, update_ne m a 0 (a + 8 + 8 * i) (λ e. omega arith) ∙ rw shift is)

    zeros_of :
        (m' : Mem)
        → Zeroed n (a + 8) (update m a 0) m'
        → (i : ℕ) → i < suc n
        → m' (a + 8 * i) ≡ some 0
    zeros_of m' rest zero h =
        let start : a + 8 * 0 ≡ a = omega arith in
        rw start (rest.kept a (λ i h e. omega arith) ∙ update_self m a 0)
    zeros_of m' rest (suc i) h = rw (← shift i) (rest.zeros i (omega arith))

    kept_of :
        (m' : Mem)
        → Zeroed n (a + 8) (update m a 0) m'
        → (b : ℕ) → ((i : ℕ) → i < suc n → b ≢ a + 8 * i)
        → m' b ≡ m b
    kept_of m' rest b ne =
        rest.kept b (λ i h e. ne (suc i) (omega arith) (e ∙ shift i))
        ∙ update_ne m a 0 b (λ e. ne 0 (omega arith) (omega arith))
