-- ===== src/Nbd/Opening.antt =====
-- The negotiation from the client's side: options that are refused, and then NBD_OPT_GO.
use telegram_block_device.Prelude.{
  ℕ, zero, suc, ◌+◌, ◌-◌, ◌^◌, ◌≤◌, ◌<◌, ◌≡◌, ◌≢◌, refl, sym, ◌∙◌, ap, inl, inr, false, some, List,
  [], ◌∷◌, ◌++◌, ok, length, length-append, take, slice, ltb, arith, append_assoc,
  take-append_length, drop-append_length, ◌==◌, if◌then◌else◌, Bool-cases, ◌%◌,
}
use telegram_block_device.Prelude.Bytes.{
  Text, codes, text_eq_refl, value_be, digits_be, length-digits_be, value_be-digits_be,
}
use telegram_block_device.Nbd.{
  NbdBackend, NbdServerOptions, nbd_magic, i_have_opt, option_reply_magic, handshake_flags, opt_go,
  opt_rep_ack, opt_rep_info, opt_rep_err_unsup,
}
use telegram_block_device.Nbd.Handshake.{
  parse_go_export_name, is_empty, info_payload, answer_option, negotiate_option, negotiate_loop,
  negotiate, agreed, next_option,
}
use telegram_block_device.Nbd.Parse.{conn, read_exact_lem, read_int_lem}

pub record Asked : Type 0 where
  pub option : ℕ
  pub payload : List ℕ

unfoldable pub option_bytes : Asked → List ℕ → List ℕ
option_bytes o rest =
    digits_be 256 8 i_have_opt
    ++ (digits_be 256 4 o.option ++ (digits_be 256 4 (length o.payload) ++ (o.payload ++ rest)))

abbrev pub IsAsked : Asked → Type 0
IsAsked o = (o.option < 2 ^ 32) × (length o.payload < 2 ^ 32)

-- Any option but NBD_OPT_EXPORT_NAME, NBD_OPT_ABORT and NBD_OPT_GO.
abbrev pub IsRefused : Asked → Type 0
IsRefused o = IsAsked o × (o.option ≢ 1) × (o.option ≢ 2) × (o.option ≢ 7)

abbrev pub AllRefused : List Asked → Type 0
AllRefused [] = Unit {0}
AllRefused (o ∷ os) = IsRefused o × AllRefused os

-- The name of the export, and behind it what the client would like to know.
abbrev pub go_option : List ℕ → List ℕ → Asked
go_option name wishes = record {
  option = opt_go;
  payload = digits_be 256 4 (length name) ++ (name ++ wishes);
}

unfoldable pub asking : List Asked → Asked → List ℕ → List ℕ
asking [] last rest = option_bytes last rest
asking (o ∷ os) last rest = option_bytes o (asking os last rest)

-- What the server sends.
abbrev pub option_reply : ℕ → ℕ → List ℕ → List ℕ
option_reply option reply payload =
    digits_be 256 8 option_reply_magic
    ++ (digits_be 256 4 option
        ++ (digits_be 256 4 reply ++ (digits_be 256 4 (length payload % 2 ^ 32) ++ payload)))

abbrev pub refusal : Asked → List ℕ
refusal o = option_reply o.option opt_rep_err_unsup (
    if o.option == 8
    then codes "structured replies are not supported"
    else codes "unsupported NBD option")

unfoldable pub refusals : List Asked → List ℕ
refusals [] = []
refusals (o ∷ os) = refusal o ++ refusals os

abbrev pub greeting : List ℕ
greeting =
    digits_be 256 8 nbd_magic ++ (digits_be 256 8 i_have_opt ++ digits_be 256 2 handshake_flags)

unequal : (n m : ℕ) → n ≢ m → (n == m) ≡ false
unequal n m h = ground arith

behind_five :
    (out a b c d e : List ℕ) → out ++ a ++ b ++ c ++ d ++ e ≡ out ++ (a ++ (b ++ (c ++ (d ++ e))))
behind_five out a b c d e = simp (append_assoc)

reply_joined :
    (out : List ℕ) (option reply : ℕ) (payload : List ℕ)
    → out
        ++ digits_be 256 8 option_reply_magic
        ++ digits_be 256 4 option
        ++ digits_be 256 4 reply
        ++ digits_be 256 4 (length payload % 2 ^ 32)
        ++ payload
      ≡ out ++ option_reply option reply payload
reply_joined out option reply payload =
    behind_five out (digits_be 256 8 option_reply_magic) (digits_be 256 4 option)
      (digits_be 256 4 reply) (digits_be 256 4 (length payload % 2 ^ 32)) payload

-- The name is found, whatever the client wishes to know behind it.
parse_go_export_name_lem :
    (lossy : List ℕ → Text) (name wishes : List ℕ)
    → 2 ≤ length wishes
    → length name < 2 ^ 32
    → parse_go_export_name lossy (digits_be 256 4 (length name) ++ (name ++ wishes))
      ≡ some (lossy name)
unfolding parse_go_export_name
parse_go_export_name_lem lossy name wishes two fits =
    let digits : List ℕ = digits_be 256 4 (length name) in
    let four : length digits ≡ 4 = length-digits_be 256 4 (length name) in
    let whole : length (digits ++ (name ++ wishes)) ≡ 4 + (length name + length wishes) =
      omega (arith, four, length-append digits (name ++ wishes), length-append name wishes) in
    let number : value_be 256 (take 4 (digits ++ (name ++ wishes))) ≡ length name =
      ap (value_be 256) (take-append_length 4 digits (name ++ wishes) four)
      ∙ value_be-digits_be 256 4 (length name) fits in
    let long : ltb (4 + (length name + length wishes)) 6 ≡ false = ground (arith, two) in
    let fitting : ltb (4 + (length name + length wishes)) (4 + length name + 2) ≡ false =
      ground (arith, two) in
    rw (whole, number, long, fitting) (ap some (ap lossy (found digits four)))
  where
    found :
        (digits : List ℕ)
        → length digits ≡ 4
        → slice 4 (4 + length name) (digits ++ (name ++ wishes)) ≡ name
    found digits four =
        let n : 4 + length name - 4 ≡ length name = omega arith in
        rw (drop-append_length 4 digits (name ++ wishes) four, n)
          (take-append_length (length name) name wishes refl)

module _ (lossy : List ℕ → Text) (B : NbdBackend) (options : NbdServerOptions) where
  option_read :
      (o : Asked) (rest out : List ℕ) (s : B.State)
      → IsAsked o
      → negotiate_option lossy B options (conn B (option_bytes o rest) out s)
        ≡ answer_option lossy B options o.option o.payload (conn B rest out s)
  unfolding negotiate_option option_bytes
  option_read o rest out s (ho, hp) =
      rw
        (
          read_int_lem B 8 i_have_opt _ out s (omega arith),
          read_int_lem B 4 o.option _ out s (omega arith),
          read_int_lem B 4 (length o.payload) _ out s (omega arith),
          read_exact_lem B (length o.payload) o.payload rest out s refl,
        )
        refl

  refused :
      (o : Asked) (rest out : List ℕ) (s : B.State)
      → IsRefused o
      → answer_option lossy B options o.option o.payload (conn B rest out s)
        ≡ (ok next_option, conn B rest (out ++ refusal o) s)
  unfolding answer_option
  refused o rest out s (h, not_name, not_abort, not_go) =
      rw (unequal o.option 1 not_name, unequal o.option 7 not_go, unequal o.option 2 not_abort)
        (elim (Bool-cases (o.option == 8)) [
          | inl structured ↦ rw structured (
              ap (λ t. (ok next_option, conn B rest t s))
                (reply_joined out o.option opt_rep_err_unsup
                  (codes "structured replies are not supported")))
          | inr other ↦ rw other (
              ap (λ t. (ok next_option, conn B rest t s))
                (reply_joined out o.option opt_rep_err_unsup (codes "unsupported NBD option")))
        ])

  abbrev pub acceptance : List ℕ
  acceptance =
      option_reply opt_go opt_rep_info (info_payload lossy B options)
      ++ option_reply opt_go opt_rep_ack []

  accepted :
      (name wishes rest out : List ℕ) (s : B.State)
      → lossy name ≡ options.export_name
      → 2 ≤ length wishes
      → length name < 2 ^ 32
      → answer_option lossy B options opt_go (go_option name wishes).payload (conn B rest out s)
        ≡ (ok agreed, conn B rest (out ++ acceptance) s)
  unfolding answer_option
  accepted name wishes rest out s right two fits =
      let info : List ℕ = option_reply opt_go opt_rep_info (info_payload lossy B options) in
      let sent =
        reply_joined
          (out
            ++ digits_be 256 8 option_reply_magic
            ++ digits_be 256 4 opt_go
            ++ digits_be 256 4 opt_rep_info
            ++ digits_be 256 4 (length (info_payload lossy B options) % 2 ^ 32)
            ++ info_payload lossy B options)
          opt_go opt_rep_ack []
        ∙ ap (λ t. t ++ option_reply opt_go opt_rep_ack [])
            (reply_joined out opt_go opt_rep_info (info_payload lossy B options))
        ∙ append_assoc out info (option_reply opt_go opt_rep_ack []) in
      let answer = ap (λ t. (ok agreed, conn B rest t s)) sent in
      rw
        (
          parse_go_export_name_lem lossy name wishes two fits,
          right,
          text_eq_refl options.export_name,
        )
        (elim (Bool-cases (is_empty options.export_name)) [
          | inl e ↦ rw e answer
          | inr e ↦ rw e answer
        ])

  negotiate_loop_lem :
      (os : List Asked) (fuel : ℕ) (name wishes rest out : List ℕ) (s : B.State)
      → lossy name ≡ options.export_name
      → AllRefused os
      → 2 ≤ length wishes
      → 4 + length name + length wishes < 2 ^ 32
      → length os < fuel
      → negotiate_loop lossy B options fuel (conn B (asking os (go_option name wishes) rest) out s)
        ≡ (ok tt, conn B rest (out ++ (refusals os ++ acceptance)) s)
  unfolding negotiate_loop asking refusals
  negotiate_loop_lem os zero name wishes rest out s right all two fits le = absurd (omega arith)
  negotiate_loop_lem [] (suc fuel) name wishes rest out s right all two fits le =
      let digits : List ℕ = digits_be 256 4 (length name) in
      let whole : length (digits ++ (name ++ wishes)) ≡ 4 + (length name + length wishes) = omega (
        arith,
        length-digits_be 256 4 (length name),
        length-append digits (name ++ wishes),
        length-append name wishes,
      ) in
      rw
        (
          option_read (go_option name wishes) rest out s (omega arith, omega (arith, whole)),
          accepted name wishes rest out s right two (omega arith),
        )
        refl
  negotiate_loop_lem (o ∷ os) (suc fuel) name wishes rest out s right (h, all) two fits le =
      rw
        (
          option_read o (asking os (go_option name wishes) rest) out s h.0,
          refused o (asking os (go_option name wishes) rest) out s h,
        )
        (negotiate_loop_lem os fuel name wishes rest (out ++ refusal o) s right all two fits
            (omega arith)
          ∙ ap (λ t. (ok tt, conn B rest t s))
              (append_assoc out (refusal o) _
                ∙ ap (λ t. out ++ t) (sym (append_assoc (refusal o) (refusals os) acceptance))))

  length-asking :
      (os : List Asked) (last : Asked) (rest : List ℕ) → length os ≤ length (asking os last rest)
  unfolding asking option_bytes
  length-asking [] last rest = omega arith
  length-asking (o ∷ os) last rest =
      let behind : List ℕ =
        digits_be 256 4 (length o.payload) ++ (o.payload ++ asking os last rest) in
      rw
        (
          length-append (digits_be 256 8 i_have_opt),
          length-digits_be 256 8 i_have_opt,
          length-append (digits_be 256 4 o.option),
          length-append (digits_be 256 4 (length o.payload)),
          length-append o.payload,
        )
        (omega (arith, length-asking os last rest))

  -- What the client sends until it is served.
  abbrev pub opening : ℕ → List Asked → List ℕ → List ℕ → List ℕ → List ℕ
  opening flags os name wishes rest =
      digits_be 256 4 flags ++ asking os (go_option name wishes) rest

  -- A client that asks for any options that the server does not have, and then for the export by its
  -- name: each of those options is refused in turn, the export is described and acknowledged, and
  -- what the client sends behind is left.
  pub negotiate-opening :
      (flags : ℕ) (os : List Asked) (name wishes rest out : List ℕ) (s : B.State)
      → lossy name ≡ options.export_name
      → flags < 2 ^ 32
      → AllRefused os
      → 2 ≤ length wishes
      → 4 + length name + length wishes < 2 ^ 32
      → negotiate lossy B options (conn B (opening flags os name wishes rest) out s)
        ≡ (ok tt, conn B rest (out ++ (greeting ++ (refusals os ++ acceptance))) s)
  unfolding negotiate
  negotiate-opening flags os name wishes rest out s right small all two fits =
      let asked : List ℕ = asking os (go_option name wishes) rest in
      let rounds : length os < suc (length (digits_be 256 4 flags ++ asked)) = omega (
        arith,
        length-asking os (go_option name wishes) rest,
        length-append (digits_be 256 4 flags) asked,
      ) in
      rw (read_int_lem B 4 flags asked _ s small) (
        negotiate_loop_lem os (suc (length (digits_be 256 4 flags ++ asked))) name wishes rest _ s
          right all two fits rounds
        ∙ ap (λ t. (ok tt, conn B rest t s))
            (greeted out (digits_be 256 8 nbd_magic) (digits_be 256 8 i_have_opt)
              (digits_be 256 2 handshake_flags) (refusals os ++ acceptance)))
    where
      greeted : (out a b c xs : List ℕ) → out ++ a ++ b ++ c ++ xs ≡ out ++ (a ++ (b ++ c) ++ xs)
      greeted out a b c xs = simp append_assoc
