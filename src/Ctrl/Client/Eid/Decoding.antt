-- ===== src/Ctrl/Client/Eid/Decoding.antt =====
-- The texts that `ramdisk_ctrl_parse_eid` takes, and the 16 bytes that it reads from them.
use ddr_direct_storage.Base.{
  ℕ, suc, ◌+◌, ◌*◌, ◌≤◌, ◌<◌, ◌≡◌, ◌≢◌, refl, sym, ap, ◌∙◌, subst, ◌⊎◌, inl, inr, Bool, true, false,
  ◌==◌, leb, Option, none, some, List, [], ◌∷◌, ◌++◌, arith, if◌then◌else◌, Status, ok, err, Bytes,
  length, set, zeros, append_assoc, length-append, Bool-cases, Option-cases,
}
use ddr_direct_storage.Base.Errno.{einval}
use ddr_direct_storage.Ctrl.Client.Eid.Alphabet.{
  digit_value, separates, hex_value_lem, is_separator_lem,
}
use ddr_direct_storage.Ctrl.Client.Eid.{hex_value, is_separator, parse_loop, ramdisk_ctrl_parse_eid}

abbrev digits_step : Bool → Option ℕ → Option (List ℕ) → Option (List ℕ)
digits_step true v rest = rest
digits_step false none rest = none
digits_step false (some v) none = none
digits_step false (some v) (some vs) = some (v ∷ vs)

-- The digits as the code reads them, if the text has only digits and separators.
abbrev read_digits : Bytes → Option (List ℕ)
read_digits [] = some []
read_digits (ch ∷ text) = digits_step (is_separator ch) (hex_value ch) (read_digits text)

-- The bytes that digits spell, two by two.
abbrev pub spelled : List ℕ → Bytes
spelled [] = []
spelled (h ∷ []) = []
spelled (h ∷ v ∷ ds) = (h * 16 + v) ∷ spelled ds

abbrev pending : Option ℕ → List ℕ → List ℕ
pending none ds = ds
pending (some h) ds = h ∷ ds

set-append :
    (front back : Bytes) (z v : ℕ)
    → set (front ++ z ∷ back) (length front) v ≡ (front ++ v ∷ []) ++ back
set-append [] back z v = refl
set-append (x ∷ front) back z v = ap (◌∷◌ x) (set-append front back z v)

digits_step_cases :
    (sep : Bool) (hex : Option ℕ) (rest : Option (List ℕ)) (ds : List ℕ)
    → digits_step sep hex rest ≡ some ds
    → ((sep ≡ true) × (rest ≡ some ds))
      ⊎ ((v : ℕ) × (vs : List ℕ) × (sep ≡ false)
          × (hex ≡ some v)
          × (rest ≡ some vs)
          × (ds ≡ v ∷ vs))
digits_step_cases true hex rest ds e = inl (refl, e)
digits_step_cases false none rest ds e = ground arith
digits_step_cases false (some v) none ds e = ground arith
digits_step_cases false (some v) (some vs) ds e = inr (v, vs, refl, refl, refl, ground arith)

-- Where the digits to come, with the one before, fill the rest of the array, the loop stores them.
parse_loop_fills :
    (text : Bytes) (high : Option ℕ) (front back : Bytes) (ds : List ℕ)
    → read_digits text ≡ some ds
    → length (pending high ds) ≡ 2 * length back
    → length front + length back ≡ 16
    → parse_loop text high (length front) (front ++ back) ≡ (ok, front ++ spelled (pending high ds))
unfolding parse_loop
parse_loop_fills [] none front [] [] e fill size =
    let full : (length front == 16) ≡ true = ground (arith, size) in rw full refl
parse_loop_fills [] none front (b ∷ back) [] e fill size = absurd (omega (arith, fill))
parse_loop_fills [] none front back (d ∷ ds) e fill size = ground arith
parse_loop_fills [] (some h) front back [] e fill size = absurd (omega (arith, fill))
parse_loop_fills [] (some h) front back (d ∷ ds) e fill size = ground arith
parse_loop_fills (ch ∷ text) none front back ds e fill size =
    elim (digits_step_cases (is_separator ch) (hex_value ch) (read_digits text) ds e) [
      | inl (sep, rest) ↦
          rw (parse_loop, sep) (parse_loop_fills text none front back ds rest fill size)
      | inr (v, vs, sep, hex, rest, same) ↦
          let fill' : suc (length vs) ≡ 2 * length back = sym (ap length same) ∙ fill in
          rw (parse_loop, sep, hex, same)
            (parse_loop_fills text (some v) front back vs rest fill' size)
    ]
parse_loop_fills (ch ∷ text) (some h) front [] ds e fill size = absurd (omega (arith, fill))
parse_loop_fills (ch ∷ text) (some h) front (b ∷ back) ds e fill size =
    elim (digits_step_cases (is_separator ch) (hex_value ch) (read_digits text) ds e) [
      | inl (sep, rest) ↦
          rw (parse_loop, sep) (parse_loop_fills text (some h) front (b ∷ back) ds rest fill size)
      | inr (v, vs, sep, hex, rest, same) ↦
          let byte = h * 16 + v in
          let stored = front ++ byte ∷ [] in
          let longer : length stored ≡ suc (length front) =
            omega (arith, length-append front (byte ∷ [])) in
          let room : leb 16 (length front) ≡ false = ground (arith, size) in
          let more =
            parse_loop_fills text none stored back vs rest (omega (arith, fill, ap length same))
              (omega (arith, size, longer)) in
          let again : parse_loop text none (suc (length front)) (stored ++ back)
              ≡ (ok, stored ++ spelled vs) =
            subst (λ n. parse_loop text none n (stored ++ back) ≡ (ok, stored ++ spelled vs)) longer
              more in
          rw (parse_loop, sep, hex, room, same, set-append front back b byte)
            (again ∙ ap (λ l. (ok, l)) (append_assoc front (byte ∷ []) (spelled vs)))
    ]

-- What the loop does with a digit.
first_digit :
    (ch : ℕ) (text : Bytes) (out : ℕ) (eid : Bytes) (v : ℕ)
    → is_separator ch ≡ false
    → hex_value ch ≡ some v
    → parse_loop (ch ∷ text) none out eid ≡ parse_loop text (some v) out eid
unfolding parse_loop
first_digit ch text out eid v sep hex = rw (parse_loop, sep, hex) refl

second_digit :
    (ch : ℕ) (text : Bytes) (h out : ℕ) (eid : Bytes) (v : ℕ)
    → is_separator ch ≡ false
    → hex_value ch ≡ some v
    → ((16 ≤ out) × (parse_loop (ch ∷ text) (some h) out eid ≡ (err einval, eid)))
      ⊎ ((out < 16)
          × (parse_loop (ch ∷ text) (some h) out eid
              ≡ parse_loop text none (suc out) (set eid out (h * 16 + v))))
unfolding parse_loop
second_digit ch text h out eid v sep hex = elim (Bool-cases (leb 16 out)) [
  | inl full ↦ inl (ground arith, rw (parse_loop, sep, hex, full) refl)
  | inr room ↦ inr (ground arith, rw (parse_loop, sep, hex, room) refl)
]

bad_char :
    (ch : ℕ) (text : Bytes) (high : Option ℕ) (out : ℕ) (eid : Bytes)
    → is_separator ch ≡ false
    → hex_value ch ≡ none
    → (parse_loop (ch ∷ text) high out eid).0 ≢ ok
unfolding parse_loop
bad_char ch text high out eid sep bad e =
    let fails : parse_loop (ch ∷ text) high out eid ≡ (err einval, eid) =
      rw (parse_loop, sep, bad) refl in
    let wrong : err einval ≡ ok = sym (ap (λ p. p.0) fails) ∙ e in ground arith

-- A text that the loop takes has as many digits as fill the rest of the array.
parse_loop_taken :
    (text : Bytes) (high : Option ℕ) (out : ℕ) (eid : Bytes)
    → (parse_loop text high out eid).0 ≡ ok
    → (ds : List ℕ) × (read_digits text ≡ some ds) × (2 * out + length (pending high ds) ≡ 32)
unfolding parse_loop
parse_loop_taken [] none out eid e = ([], refl, ground arith)
parse_loop_taken [] (some h) out eid e = ground arith
parse_loop_taken (ch ∷ text) none out eid e = elim (Bool-cases (is_separator ch)) [
  | inl sep ↦
      let skip : parse_loop (ch ∷ text) none out eid ≡ parse_loop text none out eid =
        rw (parse_loop, sep) refl in
      let (ds, found, size) = parse_loop_taken text none out eid (sym (ap (λ p. p.0) skip) ∙ e) in
      (ds, rw sep found, size)
  | inr sep ↦ elim (Option-cases (hex_value ch)) [
    | inl bad ↦ absurd (bad_char ch text none out eid sep bad e)
    | inr (v, hex) ↦
        let (ds, found, size) =
          parse_loop_taken text (some v) out eid
            (sym (ap (λ p. p.0) (first_digit ch text out eid v sep hex)) ∙ e) in
        (v ∷ ds, rw (sep, hex, found) refl, size)
  ]
]
parse_loop_taken (ch ∷ text) (some h) out eid e = elim (Bool-cases (is_separator ch)) [
  | inl sep ↦
      let skip : parse_loop (ch ∷ text) (some h) out eid ≡ parse_loop text (some h) out eid =
        rw (parse_loop, sep) refl in
      let (ds, found, size) =
        parse_loop_taken text (some h) out eid (sym (ap (λ p. p.0) skip) ∙ e) in
      (ds, rw sep found, size)
  | inr sep ↦ elim (Option-cases (hex_value ch)) [
    | inl bad ↦ absurd (bad_char ch text (some h) out eid sep bad e)
    | inr (v, hex) ↦ elim (second_digit ch text h out eid v sep hex) [
      | inl (full, fails) ↦
          let wrong : err einval ≡ ok = sym (ap (λ p. p.0) fails) ∙ e in ground arith
      | inr (room, goes) ↦
          let (ds, found, size) =
            parse_loop_taken text none (suc out) (set eid out (h * 16 + v))
              (sym (ap (λ p. p.0) goes) ∙ e) in
          (v ∷ ds, rw (sep, hex, found) refl, omega (arith, size))
    ]
  ]
]

-- The hexadecimal digits of a text, if it has only digits and separators.
abbrev pub digits : Bytes → Option (List ℕ)
digits [] = some []
digits (ch ∷ text) = digits_step (separates ch) (digit_value ch) (digits text)

same_digits : (text : Bytes) → read_digits text ≡ digits text
same_digits [] = refl
same_digits (ch ∷ text) = rw (hex_value_lem ch, is_separator_lem ch, same_digits text) refl

-- The bytes that a text spells, if it has 32 hexadecimal digits and else only separators.
abbrev sixteen : List ℕ → Option Bytes
sixteen ds = if length ds == 32 then some (spelled ds) else none

abbrev pub spelling : Bytes → Option Bytes
spelling text = elim (digits text) [ none ↦ none | some ds ↦ sixteen ds ]

-- The array that is left, if the call succeeds.
abbrev pub outcome : Status × Bytes → Option Bytes
outcome (ok, eid) = some eid
outcome (err e, eid) = none

fails : (r : Status × Bytes) → r.0 ≢ ok → outcome r ≡ none
fails (ok, eid) n = absurd (n refl)
fails (err e, eid) n = refl

-- Any text is taken exactly if it has 32 hexadecimal digits and else only the separators `:`, `-` and
-- `.`, and the 16 bytes are then the ones that the digits spell, two by two.
pub ramdisk_ctrl_parse_eid_lem :
    (text old : Bytes) → outcome (ramdisk_ctrl_parse_eid (some text) old) ≡ spelling text
unfolding ramdisk_ctrl_parse_eid
ramdisk_ctrl_parse_eid_lem text old =
    let result = parse_loop text none 0 (zeros 16) in
    elim (Option-cases (read_digits text)) [
      | inl bad ↦
          rw (spelling, sym (same_digits text), bad)
            (fails result λ taken.
              let (ds, found, size) = parse_loop_taken text none 0 (zeros 16) taken in
              let wrong : none ≡ some ds = sym bad ∙ found in ground arith)
      | inr (ds, found) ↦ elim (Bool-cases (length ds == 32)) [
        | inl enough ↦
            let done =
              parse_loop_fills text none [] (zeros 16) ds found (ground (arith, enough)) refl in
            rw (spelling, sym (same_digits text), found, enough) (ap outcome done)
        | inr other ↦
            rw (spelling, sym (same_digits text), found, other)
              (fails result λ taken.
                let (ds', found', size) = parse_loop_taken text none 0 (zeros 16) taken in
                let same : some ds ≡ some ds' = sym found ∙ found' in
                ground (arith, same, other, size))
      ]
    ]
