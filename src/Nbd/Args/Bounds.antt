-- ===== src/Nbd/Args/Bounds.antt =====
-- What the command line can set.
use ddr_direct_storage.Base.{
  ℕ, ◌^◌, ◌≤◌, ◌<◌, ◌≡◌, ◌≢◌, refl, sym, ap, ◌∙◌, inl, inr, Bool, false, Option, none, some, List,
  [], ◌∷◌, arith, ◌==◌, if◌then◌else◌, ◌||◌, is_none, Bool-cases, Option-cases, Bytes, u64_max,
  subst,
}
use ddr_direct_storage.Nbd.Args.{
  parse_trans_mode, parse_tp_type, Opt, device, size, block_size, control_sock, enable_urma,
  real_urma, queue_depth, urma_eid, eid_index, urma_trans_mode, urma_tp_type, urma_token, help,
  Args, defaults, parse_opt, parse_opts, parse_args,
}
use ddr_direct_storage.Nbd.Args.Size.{parse_size_bound}

-- The values fit the fields, and the mock is not chosen.
pub record Fits (size block_size eid_index token depth mode type : ℕ) (mock : Bool) : Type 0 where
  pub size_fits : size ≤ u64_max
  pub block_size_fits : block_size < 2 ^ 32
  pub eid_index_fits : eid_index < 2 ^ 32
  pub token_fits : token < 2 ^ 32
  pub depth_fits : depth < 2 ^ 32
  pub mode_fits : mode ≤ 2
  pub type_fits : type ≤ 2
  pub real : mock ≡ false

abbrev pub Sane : Args → Type 0
Sane a =
    Fits a.size_ a.block_size_ a.eid_index_ a.urma_token_ a.queue_depth_ a.urma_trans_mode_
      a.urma_tp_type_ a.use_mock_urma

defaults-Sane : Sane defaults
defaults-Sane = record {
  size_fits = omega arith;
  block_size_fits = omega arith;
  eid_index_fits = omega arith;
  token_fits = omega arith;
  depth_fits = omega arith;
  mode_fits = omega arith;
  type_fits = omega arith;
  real = refl;
}

module _ (strtoull : Bytes → ℕ × Bytes) (strtoul : ℕ → Bytes → ℕ) where
  mode_bound : (s : Bytes) (mode : ℕ) → parse_trans_mode s ≡ some mode → mode ≤ 2
  unfolding parse_trans_mode
  mode_bound s mode e = ground arith

  type_bound : (s : Bytes) (type : ℕ) → parse_tp_type s ≡ some type → type ≤ 2
  unfolding parse_tp_type
  type_bound s type e = ground arith

  abbrev Kept : Option Args → Type 0
  Kept none = Unit {0}
  Kept (some a) = Sane a

  parse_opt-Kept : (a : Args) (opt : Opt) → Sane a → Kept (parse_opt strtoull strtoul a opt)
  unfolding parse_opt
  parse_opt-Kept a (device arg) s = s
  parse_opt-Kept a (size arg) s = record {
    size_fits = parse_size_bound strtoull arg;
    block_size_fits = s.block_size_fits;
    eid_index_fits = s.eid_index_fits;
    token_fits = s.token_fits;
    depth_fits = s.depth_fits;
    mode_fits = s.mode_fits;
    type_fits = s.type_fits;
    real = s.real;
  }
  parse_opt-Kept a (block_size arg) s = record {
    size_fits = s.size_fits;
    block_size_fits = omega arith;
    eid_index_fits = s.eid_index_fits;
    token_fits = s.token_fits;
    depth_fits = s.depth_fits;
    mode_fits = s.mode_fits;
    type_fits = s.type_fits;
    real = s.real;
  }
  parse_opt-Kept a (control_sock arg) s = s
  parse_opt-Kept a enable_urma s = s
  parse_opt-Kept a real_urma s = record {
    size_fits = s.size_fits;
    block_size_fits = s.block_size_fits;
    eid_index_fits = s.eid_index_fits;
    token_fits = s.token_fits;
    depth_fits = s.depth_fits;
    mode_fits = s.mode_fits;
    type_fits = s.type_fits;
    real = refl;
  }
  parse_opt-Kept a (queue_depth arg) s = record {
    size_fits = s.size_fits;
    block_size_fits = s.block_size_fits;
    eid_index_fits = s.eid_index_fits;
    token_fits = s.token_fits;
    depth_fits = omega arith;
    mode_fits = s.mode_fits;
    type_fits = s.type_fits;
    real = s.real;
  }
  parse_opt-Kept a (urma_eid arg) s = s
  parse_opt-Kept a (eid_index arg) s = record {
    size_fits = s.size_fits;
    block_size_fits = s.block_size_fits;
    eid_index_fits = omega arith;
    token_fits = s.token_fits;
    depth_fits = s.depth_fits;
    mode_fits = s.mode_fits;
    type_fits = s.type_fits;
    real = s.real;
  }
  parse_opt-Kept a (urma_token arg) s = record {
    size_fits = s.size_fits;
    block_size_fits = s.block_size_fits;
    eid_index_fits = s.eid_index_fits;
    token_fits = omega arith;
    depth_fits = s.depth_fits;
    mode_fits = s.mode_fits;
    type_fits = s.type_fits;
    real = s.real;
  }
  parse_opt-Kept a (urma_trans_mode arg) s = elim (Option-cases (parse_trans_mode arg)) [
    | inl unknown ↦ rw (parse_opt, unknown) tt
    | inr (v, known) ↦
        rw (parse_opt, known)
          (record {
            size_fits = s.size_fits;
            block_size_fits = s.block_size_fits;
            eid_index_fits = s.eid_index_fits;
            token_fits = s.token_fits;
            depth_fits = s.depth_fits;
            mode_fits = mode_bound arg v known;
            type_fits = s.type_fits;
            real = s.real;
          })
  ]
  parse_opt-Kept a (urma_tp_type arg) s = elim (Option-cases (parse_tp_type arg)) [
    | inl unknown ↦ rw (parse_opt, unknown) tt
    | inr (v, known) ↦
        rw (parse_opt, known)
          (record {
            size_fits = s.size_fits;
            block_size_fits = s.block_size_fits;
            eid_index_fits = s.eid_index_fits;
            token_fits = s.token_fits;
            depth_fits = s.depth_fits;
            mode_fits = s.mode_fits;
            type_fits = type_bound arg v known;
            real = s.real;
          })
  ]
  parse_opt-Kept a help s = tt

  parse_opts-Kept :
      (a : Args) (opts : List Opt) → Sane a → Kept (parse_opts strtoull strtoul a opts)
  unfolding parse_opts
  parse_opts-Kept a [] s = s
  parse_opts-Kept a (opt ∷ opts) s =
      let kept = parse_opt-Kept a opt s in
      elim (Option-cases (parse_opt strtoull strtoul a opt)) [
        | inl fails ↦ rw (parse_opts, fails) tt
        | inr (a', goes) ↦
            rw (parse_opts, goes) (parse_opts-Kept a' opts (subst (λ o. Kept o) goes kept))
      ]

  -- Where the daemon starts, it has a device and a size that is not 0 and fits in 64 bits, the transport
  -- mode and the type are among the three that there are, the other numbers fit in 32 bits, and the mock
  -- is not used, whatever the command line says.
  pub parse_args-Sane :
      (opts : List Opt) (a : Args)
      → parse_args strtoull strtoul opts ≡ some a
      → Sane a × (a.size_ ≢ 0) × ((device : Bytes) × (a.device_ ≡ some device))
  unfolding parse_args
  parse_args-Sane opts a e =
      let kept = parse_opts-Kept defaults opts defaults-Sane in
      elim (Option-cases (parse_opts strtoull strtoul defaults opts)) [
        | inl fails ↦
            let fails' : parse_args strtoull strtoul opts ≡ none = rw (parse_args, fails) refl in
            let wrong : none ≡ some a = sym fails' ∙ e in ground arith
        | inr (a', goes) ↦ elim (Option-cases a'.device_) [
          | inl nowhere ↦
              let fails : parse_args strtoull strtoul opts ≡ none =
                rw (parse_args, goes, nowhere) refl in
              let wrong : none ≡ some a = sym fails ∙ e in ground arith
          | inr (name, there) ↦ elim (Bool-cases (a'.size_ == 0)) [
            | inl nothing ↦
                let fails : parse_args strtoull strtoul opts ≡ none =
                  rw (parse_args, goes, there, nothing) refl in
                let wrong : none ≡ some a = sym fails ∙ e in ground arith
            | inr some_bytes ↦
                let checks : (is_none a'.device_ || a'.size_ == 0) ≡ false =
                  rw (there, some_bytes) refl in
                let reaches : parse_args strtoull strtoul opts
                    ≡ (if is_none a'.device_ || a'.size_ == 0 then none else some a') =
                  rw (parse_args, goes) refl in
                let both : some a' ≡ some a =
                  sym (ap (λ b. if b then none else some a') checks) ∙ sym reaches ∙ e in
                let same : a' ≡ a = ap (λ o. elim o [ none ↦ a' | some x ↦ x ]) both in
                subst (λ x. Sane x × (x.size_ ≢ 0) × ((device : Bytes) × (x.device_ ≡ some device)))
                  same (subst (λ o. Kept o) goes kept, ground (arith, some_bytes), (name, there))
          ]
        ]
      ]
