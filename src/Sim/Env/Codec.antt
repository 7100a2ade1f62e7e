-- ===== src/Sim/Env/Codec.antt =====
-- sim/gym_env.py, _encode and _decode: each undoes the other.
use kelpflux.Base.{ℕ, ◌+◌, ◌*◌, ◌/◌, ◌%◌, ◌<◌, ◌≡◌, refl, sym, ap, ◌∙◌, subst, arith}
use native.Mathlib.Nat.{
  mul-add-div_right, mul-add-mod_self_right, div-eq_of_lt, mod-eq_of_lt, div-add-mod',
  div-lt_iff_lt-mul,
}
use kelpflux.Sim.Env.{Shape, n_modes, n_placements, encode, decode}

div-of : (q n r : ℕ) → r < n → (q * n + r) / n ≡ q
div-of q n r h =
    mul-add-div_right (omega (arith, h)) q r ∙ (ap (λ d. q + d) (div-eq_of_lt h) ∙ omega arith)

mod-of : (q n r : ℕ) → r < n → (q * n + r) % n ≡ r
mod-of q n r h = mul-add-mod_self_right q n r ∙ mod-eq_of_lt h

n_modes_pos : (self : Shape) → 0 < n_modes self
n_modes_pos self = ground arith

-- The placement of a GPU lies within the topology.
pub placement-lt : (nj gk n g : ℕ) → nj < n → gk < g → nj * g + gk < n * g
placement-lt nj gk n g h k =
    (div-lt_iff_lt-mul (omega (arith, k))).0 (subst (λ q. q < n) (sym (div-of nj g gk k)) h)

module _ (self : Shape) (i nj gk mode : ℕ) where
  pub decode-encode :
      nj < self.n_nodes
      → gk < self.gpus_per_node
      → mode < n_modes self
      → decode self (encode self i (nj * self.gpus_per_node + gk) mode) ≡ (i, nj, gk, mode)
  unfolding decode encode
  decode-encode h k m =
      let p = nj * self.gpus_per_node + gk in
      let in_range = placement-lt nj gk self.n_nodes self.gpus_per_node h k in
      rw
        (
          div-of (i * n_placements self + p) (n_modes self) mode m,
          mod-of (i * n_placements self + p) (n_modes self) mode m,
          div-of i (n_placements self) p in_range,
          mod-of i (n_placements self) p in_range,
          div-of nj self.gpus_per_node gk k,
          mod-of nj self.gpus_per_node gk k,
        )
        refl

-- Every number is the code of what it is decoded to.
pub encode-decode :
    (self : Shape) (a : ℕ)
    → let (i, nj, gk, mode) = decode self a in encode self i (nj * self.gpus_per_node + gk) mode ≡ a
unfolding decode encode
encode-decode self a =
    let pj = a / n_modes self in
    rw
      (
        div-add-mod' (pj % n_placements self) self.gpus_per_node,
        div-add-mod' pj (n_placements self),
        div-add-mod' a (n_modes self),
      )
      refl
