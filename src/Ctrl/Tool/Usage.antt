-- ===== src/Ctrl/Tool/Usage.antt =====
-- What the usage text of userspace-nbd/src/ramdiskctl.c promises, and that `main` asks for it.
use ddr_direct_storage.Base.{
  ℕ, ◌%◌, ◌^◌, ◌≡◌, ◌≢◌, refl, sym, ap, ◌∙◌, subst, ◌↔◌, ◌⊎◌, inl, inr, arith, true, Bool-cases,
  Option, none, some, List, [], ◌∷◌, Status, ok, err, Bytes, zeros, strcmp_equal, codes,
}
use ddr_direct_storage.Ctrl.Client.Eid.{ramdisk_ctrl_parse_eid}
use ddr_direct_storage.Ctrl.Client.Eid.Decoding.{spelling, outcome, ramdisk_ctrl_parse_eid_lem}
use ddr_direct_storage.Ctrl.Command.{Command, query, enable, disable, connect, disconnect, transfer}
use ddr_direct_storage.Ctrl.Tool.{
  sock_flag, status_word, enable_word, disable_word, peer_connect_word, peer_disconnect_word,
  transfer_word, to_hbm_word, from_hbm_word, sock_and_args, parse_u64, peer_connect_args,
  peer_disconnect_args, transfer_args, command_of,
}

module _ (strtoull : Bytes → ℕ) where
  -- A number on the command line, with 64 bits and cut to 32 bits.
  abbrev pub number : Bytes → ℕ
  number text = strtoull text % 2 ^ 64

  abbrev pub short_number : Bytes → ℕ
  short_number text = number text % 2 ^ 32

  -- The lines of the usage text. What follows the first three words is not read.
  pub data Asks : List Bytes → Command → Type 0 where
    asks_status : (rest : List Bytes) → Asks (codes "status" ∷ rest) query
    asks_enable : (rest : List Bytes) → Asks (codes "enable" ∷ rest) enable
    asks_disable : (rest : List Bytes) → Asks (codes "disable" ∷ rest) disable
    asks_connect :
        (id eid_hex uasid seg_va seg_len token jetty eid : Bytes)
        → spelling eid_hex ≡ some eid
        → Asks
            (codes "peer-connect" ∷ id ∷ eid_hex ∷ uasid ∷ seg_va ∷ seg_len ∷ token ∷ jetty ∷ [])
            (connect (record {
              peer_id = number id;
              eid = eid;
              uasid = short_number uasid;
              seg_va = number seg_va;
              seg_len = number seg_len;
              seg_token_id = short_number token;
              jetty_id = short_number jetty;
            }))
    asks_disconnect :
        (id : Bytes) → Asks (codes "peer-disconnect" ∷ id ∷ []) (disconnect (number id))
    asks_to_hbm :
        (id request local remote len : Bytes)
        → Asks (codes "transfer" ∷ id ∷ request ∷ local ∷ remote ∷ len ∷ codes "to-hbm" ∷ []) (
            transfer (record {
              peer_id = number id;
              request_id = number request;
              local_offset = number local;
              remote_hbm_addr = number remote;
              len = short_number len;
              direction = 1;
            }))
    asks_from_hbm :
        (id request local remote len : Bytes)
        → Asks (codes "transfer" ∷ id ∷ request ∷ local ∷ remote ∷ len ∷ codes "from-hbm" ∷ []) (
            transfer (record {
              peer_id = number id;
              request_id = number request;
              local_offset = number local;
              remote_hbm_addr = number remote;
              len = short_number len;
              direction = 2;
            }))

strcmp_equal_lem : (a b : Bytes) → strcmp_equal a b ≡ true → a ≡ b
strcmp_equal_lem [] [] e = refl
strcmp_equal_lem [] (y ∷ b) e = ground arith
strcmp_equal_lem (x ∷ a) [] e = ground arith
strcmp_equal_lem (x ∷ a) (y ∷ b) e = ground (arith, strcmp_equal_lem a b)

outcome-cases :
    (r : Status × Bytes)
    → ((eid : Bytes) × (outcome r ≡ some eid) × (r ≡ (ok, eid)))
      ⊎ ((e : ℕ) × (outcome r ≡ none) × (r.0 ≡ err e))
outcome-cases (ok, eid) = inl (eid, refl, refl)
outcome-cases (err e, eid) = inr (e, refl, refl)

-- The EID of a text, as the code finds it.
parse_eid-cases :
    (text : Bytes)
    → let r = ramdisk_ctrl_parse_eid (some text) (zeros 16) in
      ((eid : Bytes) × (spelling text ≡ some eid) × (r ≡ (ok, eid)))
      ⊎ ((e : ℕ) × (spelling text ≡ none) × (r.0 ≡ err e))
parse_eid-cases text =
    let same = sym (ramdisk_ctrl_parse_eid_lem text (zeros 16)) in
    elim (outcome-cases (ramdisk_ctrl_parse_eid (some text) (zeros 16))) [
      | inl (eid, found, taken) ↦ inl (eid, same ∙ found, taken)
      | inr (e, none_, refused) ↦ inr (e, same ∙ none_, refused)
    ]

module _ (strtoull : Bytes → ℕ) where
  -- Where the result is known.
  known :
      (args : List Bytes) (o : Option Command) (c c' : Command)
      → o ≡ some c
      → Asks strtoull args c
      → o ≡ some c'
      → Asks strtoull args c'
  known args o c c' p h q = let e : c ≡ c' = cc in subst (Asks strtoull args) e h

  wrong : {A : Type 0} → (c : Command) (o : Option Command) → o ≡ none → o ≡ some c → A
  wrong c o p q = let e : none ≡ some c = sym p ∙ q in absurd (ground (arith, e))

  connect_known :
      (id eid_hex uasid seg_va seg_len token jetty eid : Bytes)
      → ramdisk_ctrl_parse_eid (some eid_hex) (zeros 16) ≡ (ok, eid)
      → peer_connect_args strtoull (id ∷ eid_hex ∷ uasid ∷ seg_va ∷ seg_len ∷ token ∷ jetty ∷ [])
        ≡ some (
            connect (record {
              peer_id = number strtoull id;
              eid = eid;
              uasid = short_number strtoull uasid;
              seg_va = number strtoull seg_va;
              seg_len = number strtoull seg_len;
              seg_token_id = short_number strtoull token;
              jetty_id = short_number strtoull jetty;
            }))
  unfolding peer_connect_args parse_u64
  connect_known id eid_hex uasid seg_va seg_len token jetty eid taken =
      rw (peer_connect_args, ap (λ p. p.0) taken, ap (λ p. p.1) taken) refl

  connect-Asks :
      (args : List Bytes) (c : Command)
      → peer_connect_args strtoull args ≡ some c
      → Asks strtoull (codes "peer-connect" ∷ args) c
  unfolding peer_connect_args parse_u64
  connect-Asks (id ∷ eid ∷ uasid ∷ seg_va ∷ seg_len ∷ token ∷ jetty ∷ []) c e =
      let args = id ∷ eid ∷ uasid ∷ seg_va ∷ seg_len ∷ token ∷ jetty ∷ [] in
      elim (parse_eid-cases eid) [
        | inl (raw, spelt, taken) ↦
            known (codes "peer-connect" ∷ args) (peer_connect_args strtoull args) _ c
              (connect_known id eid uasid seg_va seg_len token jetty raw taken)
              (asks_connect id eid uasid seg_va seg_len token jetty raw spelt) e
        | inr (x, _, refused) ↦
            wrong c (peer_connect_args strtoull args) (rw (peer_connect_args, refused) refl) e
      ]
  connect-Asks args c e = ground (arith, e)

  disconnect-Asks :
      (args : List Bytes) (c : Command)
      → peer_disconnect_args strtoull args ≡ some c
      → Asks strtoull (codes "peer-disconnect" ∷ args) c
  unfolding peer_disconnect_args parse_u64
  disconnect-Asks (id ∷ []) c e =
      known _ (peer_disconnect_args strtoull (id ∷ [])) _ c refl (asks_disconnect id) e
  disconnect-Asks args c e = ground (arith, e)

  transfer-Asks :
      (args : List Bytes) (c : Command)
      → transfer_args strtoull args ≡ some c
      → Asks strtoull (codes "transfer" ∷ args) c
  unfolding transfer_args parse_u64
  transfer-Asks (id ∷ request ∷ local ∷ remote ∷ len ∷ way ∷ []) c e =
      let asks : Bytes → List Bytes =
        λ w. codes "transfer" ∷ id ∷ request ∷ local ∷ remote ∷ len ∷ w ∷ [] in
      let args = id ∷ request ∷ local ∷ remote ∷ len ∷ way ∷ [] in
      elim (Bool-cases (strcmp_equal way to_hbm_word)) [
        | inl to_ ↦
            subst (λ w. Asks strtoull (asks w) c) (sym (strcmp_equal_lem way to_hbm_word to_))
              (known _ (transfer_args strtoull args) _ c (rw (transfer_args, to_) refl)
                (asks_to_hbm id request local remote len) e)
        | inr not_to ↦ elim (Bool-cases (strcmp_equal way from_hbm_word)) [
          | inl from ↦
              subst (λ w. Asks strtoull (asks w) c) (sym (strcmp_equal_lem way from_hbm_word from))
                (known _ (transfer_args strtoull args) _ c (rw (transfer_args, not_to, from) refl)
                  (asks_from_hbm id request local remote len) e)
          | inr not_from ↦
              wrong c (transfer_args strtoull args) (rw (transfer_args, not_to, not_from) refl) e
        ]
      ]
  transfer-Asks args c e = ground (arith, e)

  as_word :
      (word word' : Bytes) (args : List Bytes) (c : Command)
      → strcmp_equal word word' ≡ true
      → Asks strtoull (word' ∷ args) c
      → Asks strtoull (word ∷ args) c
  as_word word word' args c e h =
      subst (λ w. Asks strtoull (w ∷ args) c) (sym (strcmp_equal_lem word word' e)) h

  sound :
      (args : List Bytes) (c : Command) → command_of strtoull args ≡ some c → Asks strtoull args c
  unfolding command_of
  sound [] c e = ground (arith, e)
  sound (word ∷ args) c e =
      let o = command_of strtoull (word ∷ args) in
      elim (Bool-cases (strcmp_equal word status_word)) [
        | inl y ↦
            as_word word status_word args c y
              (known _ o query c (rw (command_of, y) refl) (asks_status args) e)
        | inr n1 ↦ elim (Bool-cases (strcmp_equal word enable_word)) [
          | inl y ↦
              as_word word enable_word args c y
                (known _ o enable c (rw (command_of, n1, y) refl) (asks_enable args) e)
          | inr n2 ↦ elim (Bool-cases (strcmp_equal word disable_word)) [
            | inl y ↦
                as_word word disable_word args c y
                  (known _ o disable c (rw (command_of, n1, n2, y) refl) (asks_disable args) e)
            | inr n3 ↦ elim (Bool-cases (strcmp_equal word peer_connect_word)) [
              | inl y ↦
                  let now : o ≡ peer_connect_args strtoull args =
                    rw (command_of, n1, n2, n3, y) refl in
                  as_word word peer_connect_word args c y (connect-Asks args c (sym now ∙ e))
              | inr n4 ↦ elim (Bool-cases (strcmp_equal word peer_disconnect_word)) [
                | inl y ↦
                    let now : o ≡ peer_disconnect_args strtoull args =
                      rw (command_of, n1, n2, n3, n4, y) refl in
                    as_word word peer_disconnect_word args c y
                      (disconnect-Asks args c (sym now ∙ e))
                | inr n5 ↦ elim (Bool-cases (strcmp_equal word transfer_word)) [
                  | inl y ↦
                      let now : o ≡ transfer_args strtoull args =
                        rw (command_of, n1, n2, n3, n4, n5, y) refl in
                      as_word word transfer_word args c y (transfer-Asks args c (sym now ∙ e))
                  | inr n6 ↦ wrong c o (rw (command_of, n1, n2, n3, n4, n5, n6) refl) e
                ]
              ]
            ]
          ]
        ]
      ]

  -- The spelling of an EID is what the parser takes.
  parse_eid_spelt :
      (text eid : Bytes)
      → spelling text ≡ some eid
      → ramdisk_ctrl_parse_eid (some text) (zeros 16) ≡ (ok, eid)
  parse_eid_spelt text eid e = elim (parse_eid-cases text) [
    | inl (raw, spelt, taken) ↦ let same : raw ≡ eid = cc in taken ∙ ap (λ x. (ok, x)) same
    | inr (x, none_, refused) ↦
        let impossible : none ≡ some eid = sym none_ ∙ e in absurd (ground (arith, impossible))
  ]

  complete :
      (args : List Bytes) (c : Command) → Asks strtoull args c → command_of strtoull args ≡ some c
  unfolding command_of peer_connect_args peer_disconnect_args transfer_args parse_u64
  complete _ _ (asks_status rest) = refl
  complete _ _ (asks_enable rest) = refl
  complete _ _ (asks_disable rest) = refl
  complete _ _ (asks_connect id eid_hex uasid seg_va seg_len token jetty eid spelt) =
      connect_known id eid_hex uasid seg_va seg_len token jetty eid
        (parse_eid_spelt eid_hex eid spelt)
  complete _ _ (asks_disconnect id) = refl
  complete _ _ (asks_to_hbm id request local remote len) = refl
  complete _ _ (asks_from_hbm id request local remote len) = refl

  -- The program takes exactly the command lines of its usage text, where what follows `status`,
  -- `enable` and `disable` does not matter, with the numbers in their places, those for fields of 32
  -- bits cut to these, the direction that the last word names, and an EID that is 32 hexadecimal
  -- digits; every other one is refused.
  pub command_of_lem :
      (args : List Bytes) (c : Command) → (command_of strtoull args ≡ some c) ↔ Asks strtoull args c
  command_of_lem args c = (sound args c, complete args c)

-- The socket and the words of a command, with `--sock PATH` or without it.
pub data Invokes : List Bytes → Bytes → List Bytes → Type 0 where
  flagged :
      (prog path word : Bytes) (args : List Bytes)
      → Invokes (prog ∷ codes "--sock" ∷ path ∷ word ∷ args) path (word ∷ args)
  plain :
      (prog word : Bytes) (args : List Bytes)
      → word ≢ codes "--sock"
      → Invokes (prog ∷ word ∷ args) (codes "/run/nbd-ramdisk/control.sock") (word ∷ args)

pub sock_and_args_lem :
    (argv : List Bytes) (sock : Bytes) (args : List Bytes)
    → Invokes argv sock args
    → sock_and_args argv ≡ (sock, args)
unfolding sock_and_args
sock_and_args_lem _ _ _ (flagged prog path word args) = refl
sock_and_args_lem _ _ _ (plain prog word [] other) = refl
sock_and_args_lem _ _ _ (plain prog word (x ∷ []) other) = refl
sock_and_args_lem _ _ _ (plain prog word (x ∷ y ∷ args) other) =
    elim (Bool-cases (strcmp_equal word sock_flag)) [
      | inl is ↦ absurd (other (strcmp_equal_lem word sock_flag is))
      | inr n ↦ rw n refl
    ]
