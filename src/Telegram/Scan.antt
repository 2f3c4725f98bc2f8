-- ===== src/Telegram/Scan.antt =====
-- The scan of `recover_superblock_text`.
use telegram_block_device.Prelude.{
  ℕ, ◌≤◌, ◌≡◌, ◌≢◌, ◌⊎◌, refl, sym, ◌∙◌, ap, subst, inl, inr, Bool-cases, Option, none, some, List,
  [], ◌∷◌, ◌++◌, append_assoc, append-nil, Result, ok, err, Result-cases, arith, true, false, ltb,
}
use mathlib.Core.List.{Memᴰ}
use mathlib.Core.List.Memᴰ
use telegram_block_device.Prelude.Bytes.{Text}
use telegram_block_device.Errors.{Error, message_ids_empty}
use telegram_block_device.Format.Superblock.{Superblock, SuperblockJson, decode_text}
use telegram_block_device.Telegram.{Chat, Message}
use telegram_block_device.Telegram.Storage.{
  readable, or_none, keep_better, better, scan, or_pinned, recover_superblock_text,
}

-- No number of the list is above `n`.
abbrev pub AllBelow : ℕ → List ℕ → Type 0
AllBelow n [] = Unit {0}
AllBelow n (k ∷ ks) = (k ≤ n) × AllBelow n ks

AllBelow-append : (n : ℕ) (xs ys : List ℕ) → AllBelow n xs → AllBelow n ys → AllBelow n (xs ++ ys)
AllBelow-append n [] ys h g = g
AllBelow-append n (x ∷ xs) ys (h, hs) g = (h, AllBelow-append n xs ys hs g)

AllBelow-mono : (n k : ℕ) (xs : List ℕ) → n ≤ k → AllBelow n xs → AllBelow k xs
AllBelow-mono n k [] le h = tt
AllBelow-mono n k (x ∷ xs) le (h, hs) = (omega arith, AllBelow-mono n k xs le hs)

abbrev pub generation_of : Result Error Superblock → List ℕ
generation_of (ok b) = b.manifest_generation ∷ []
generation_of (err e) = []

not_below : (n k : ℕ) → ltb n k ≡ false → k ≤ n
not_below n k h = ground arith

under : (n k : ℕ) → ltb n k ≡ true → n ≤ k
under n k h = ground arith

is_ids_empty : (e : Error) → Dec (e ≡ message_ids_empty)
is_ids_empty message_ids_empty = yes refl
is_ids_empty e = no (λ h. cc)

module _ (T : Chat) (serde : SuperblockJson) where
  -- The generations of the superblocks that messages have.
  abbrev pub generations : List (Message T.Media) → List ℕ
  generations [] = []
  generations (m ∷ ms) = generation_of (decode_text serde m.text) ++ generations ms

  generations-append :
      (ms ns : List (Message T.Media)) → generations (ms ++ ns) ≡ generations ms ++ generations ns
  generations-append [] ns = refl
  generations-append (m ∷ ms) ns =
      ap (λ t. generation_of (decode_text serde m.text) ++ t) (generations-append ms ns)
      ∙ sym (
          append_assoc (generation_of (decode_text serde m.text)) (generations ms) (generations ns))

  -- The best of the messages that were seen.
  pub data Best (seen : List (Message T.Media)) : Option (ℕ × Text) → Type 0 where
    none_seen : generations seen ≡ [] → Best seen none
    best_seen :
        (m : Message T.Media) (b : Superblock)
        → Memᴰ m seen
        → decode_text serde m.text ≡ ok b
        → AllBelow b.manifest_generation (generations seen)
        → Best seen (some (b.manifest_generation, m.text))

  -- One more message.
  Best-better :
      (seen : List (Message T.Media)) (best : Option (ℕ × Text)) (m : Message T.Media)
      → Best seen best
      → Best (seen ++ m ∷ []) (better T serde best m.text)
  Best-better seen best m h = elim (Result-cases (decode_text serde m.text)) [
    | inr (e, bad) ↦ rw bad (passed_over e bad h)
    | inl (b, good) ↦ rw good (weighed b good h)
  ]
    where
      with_last :
          {r : Result Error Superblock}
          → decode_text serde m.text ≡ r
          → generations (seen ++ m ∷ []) ≡ generations seen ++ generation_of r
      with_last {r = r} e =
          generations-append seen (m ∷ [])
          ∙ ap (λ t. generations seen ++ t)
              (append-nil (generation_of (decode_text serde m.text)) ∙ ap generation_of e)

      passed_over :
          (e : Error)
          → decode_text serde m.text ≡ err e
          → {best : Option (ℕ × Text)} → Best seen best
          → Best (seen ++ m ∷ []) best
      passed_over e bad (none_seen h) =
          none_seen (with_last bad ∙ append-nil (generations seen) ∙ h)
      passed_over e bad (best_seen x b here good h) =
          best_seen x b (Memᴰ.append_left (m ∷ []) here) good (
            subst (AllBelow b.manifest_generation)
              (sym (with_last bad ∙ append-nil (generations seen))) h)

      weighed :
          (b : Superblock)
          → decode_text serde m.text ≡ ok b
          → {best : Option (ℕ × Text)} → Best seen best
          → Best (seen ++ m ∷ []) (keep_better best m.text (ok b))
      weighed b good (none_seen h) = best_seen m b (Memᴰ.append_right seen (Memᴰ.head refl)) good (
          subst (AllBelow b.manifest_generation)
            (sym (with_last good ∙ ap (λ t. t ++ b.manifest_generation ∷ []) h)) (omega arith, tt))
      weighed b good (best_seen x c here fine h) =
          elim (Bool-cases (ltb c.manifest_generation b.manifest_generation)) [
            | inl above ↦ rw above (
                best_seen m b (Memᴰ.append_right seen (Memᴰ.head refl)) good (
                  subst (AllBelow b.manifest_generation) (sym (with_last good)) (
                    AllBelow-append b.manifest_generation (generations seen)
                      (b.manifest_generation ∷ [])
                      (AllBelow-mono c.manifest_generation b.manifest_generation (generations seen)
                        (under _ _ above) h)
                      (omega arith, tt))))
            | inr lower ↦ rw lower (
                best_seen x c (Memᴰ.append_left (m ∷ []) here) fine (
                  subst (AllBelow c.manifest_generation) (sym (with_last good)) (
                    AllBelow-append c.manifest_generation (generations seen)
                      (b.manifest_generation ∷ []) h (not_below _ _ lower, tt))))
          ]

  Best-scan :
      (ms seen : List (Message T.Media)) (best : Option (ℕ × Text))
      → Best seen best
      → Best (seen ++ ms) (scan T serde best ms)
  unfolding scan
  Best-scan [] seen best h = subst (λ l. Best l best) (sym (append-nil seen)) h
  Best-scan (m ∷ ms) seen best h =
      subst (λ l. Best l (scan T serde (better T serde best m.text) ms))
        (append_assoc seen (m ∷ []) ms)
        (Best-scan ms (seen ++ m ∷ []) (better T serde best m.text) (Best-better seen best m h))

  -- What a recovery comes to.
  pub data Recovers (ms : List (Message T.Media)) (t : T.State)
      (r : Result Error (Option Text) × T.State) : Type 0 where
    highest :
        (m : Message T.Media) (b : Superblock)
        → Memᴰ m ms
        → decode_text serde m.text ≡ ok b
        → AllBelow b.manifest_generation (generations ms)
        → r ≡ (ok (some m.text), t)
        → Recovers ms t r
    pinned :
        (m : Message T.Media) (b : Superblock)
        → generations ms ≡ []
        → (T.get_pinned_message t).0 ≡ ok (some m)
        → decode_text serde m.text ≡ ok b
        → r ≡ (ok (some m.text), (T.get_pinned_message t).1)
        → Recovers ms t r
    other_pinned :
        (m : Message T.Media) (e : Error)
        → generations ms ≡ []
        → (T.get_pinned_message t).0 ≡ ok (some m)
        → decode_text serde m.text ≡ err e
        → r ≡ (ok none, (T.get_pinned_message t).1)
        → Recovers ms t r
    none_pinned :
        generations ms ≡ []
        → ((T.get_pinned_message t).0 ≡ ok none)
          ⊎ ((T.get_pinned_message t).0 ≡ err message_ids_empty)
        → r ≡ (ok none, (T.get_pinned_message t).1)
        → Recovers ms t r
    unanswered :
        (e : Error)
        → generations ms ≡ []
        → (T.get_pinned_message t).0 ≡ err e
        → e ≢ message_ids_empty
        → r ≡ (err e, (T.get_pinned_message t).1)
        → Recovers ms t r

  pin_decodes :
      (ms : List (Message T.Media)) (t : T.State) (m : Message T.Media)
      → generations ms ≡ []
      → (T.get_pinned_message t).0 ≡ ok (some m)
      → Recovers ms t (ok (readable T serde (some m.text)), (T.get_pinned_message t).1)
  pin_decodes ms t m h there = elim (Result-cases (decode_text serde m.text)) [
    | inl (b, good) ↦ rw good (pinned m b h there good refl)
    | inr (e, bad) ↦ rw bad (other_pinned m e h there bad refl)
  ]

  or_none_err : (e : Error) → e ≢ message_ids_empty → or_none T (err e) ≡ err e
  or_none_err message_ids_empty h = absurd (h refl)
  or_none_err e h = refl

  pin_fails :
      (ms : List (Message T.Media)) (t : T.State) (e : Error)
      → generations ms ≡ []
      → (T.get_pinned_message t).0 ≡ err e
      → Dec (e ≡ message_ids_empty)
      → Recovers ms t (or_pinned T serde none t)
  pin_fails ms t e h there (yes same) =
      let empty : (T.get_pinned_message t).0 ≡ err message_ids_empty = there ∙ ap err same in
      rw empty (none_pinned h (inr empty) refl)
  pin_fails ms t e h there (no other) =
      rw (there, or_none_err e other) (unanswered e h there other refl)

  by_pin :
      (ms : List (Message T.Media)) (t : T.State)
      → generations ms ≡ []
      → Recovers ms t (or_pinned T serde none t)
  by_pin ms t h = elim (Result-cases (T.get_pinned_message t).0) [
    | inl (none, there) ↦ rw there (none_pinned h (inl there) refl)
    | inl (some m, there) ↦ rw there (pin_decodes ms t m h there)
    | inr (e, there) ↦ pin_fails ms t e h there (is_ids_empty e)
  ]

  -- Among the messages of the scan that have a superblock, a recovery returns the text of one of the
  -- highest generation. If there is none, it asks for the pinned message, and returns its text if that
  -- has a superblock, and nothing if it has none or no message is pinned; any other error is returned.
  pub recover_superblock_text_lem :
      (scan_limit : ℕ) (s t : T.State) (ms : List (Message T.Media))
      → T.iter_messages scan_limit s ≡ (ok ms, t)
      → Recovers ms t (recover_superblock_text T serde scan_limit s)
  unfolding recover_superblock_text
  recover_superblock_text_lem scan_limit s t ms h =
      rw h (by_best (scan T serde none ms) (Best-scan ms [] none (none_seen refl)))
    where
      by_best : (best : Option (ℕ × Text)) → Best ms best → Recovers ms t (or_pinned T serde best t)
      by_best none (none_seen h) = by_pin ms t h
      by_best (some best) (best_seen m b here good below) = highest m b here good below refl
