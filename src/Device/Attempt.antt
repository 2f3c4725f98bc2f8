-- ===== src/Device/Attempt.antt =====
-- What a write comes to when it is not known whether the dirty rows suffice.
use telegram_block_device.Prelude.{
  ℕ, zero, suc, ◌+◌, ◌-◌, ◌/◌, ◌%◌, ◌≤◌, ◌<◌, ◌≡◌, refl, sym, ◌∙◌, ap, inl, inr, List, [], ◌∷◌,
  ◌++◌, Result, ok, err, min, take, drop, length, arith, length-take, length-drop, le_total,
}
use telegram_block_device.Format.Digest.{Digest}
use telegram_block_device.Format.Manifest.{ManifestJson}
use telegram_block_device.Errors.{Error, backpressure}
use telegram_block_device.Block.{BlockMap}
use telegram_block_device.Backend.{RemoteBackend, Channel, IsReadable}
use telegram_block_device.Disk.{overwrite, overwrite-append}
use telegram_block_device.Device.{BlockDevice, write_loop, write_at}
use telegram_block_device.Device.Represents.{IsSized, Represents, Place, place, write_fits}
use telegram_block_device.Device.Write.{Round, round, joined, overwrite_nil, Represents-eq}
use telegram_block_device.Device.Refuse.{write_loop_full}

take_add : (n k : ℕ) (xs : List ℕ) → take n xs ++ take k (drop n xs) ≡ take (n + k) xs
take_add zero k xs = let e : 0 + k ≡ k = omega arith in rw e refl
take_add (suc n) zero [] = let e : suc n + 0 ≡ suc n = omega arith in rw e refl
take_add (suc n) (suc k) [] = let e : suc n + suc k ≡ suc (n + suc k) = omega arith in rw e refl
take_add (suc n) k (x ∷ xs) =
    let e : suc n + k ≡ suc (n + k) = omega arith in rw e (ap (λ t. x ∷ t) (take_add n k xs))

joined_part :
    (f : ℕ → ℕ) (cursor n k : ℕ) (bytes : List ℕ)
    → n ≤ length bytes
    → (a : ℕ)
    → overwrite (overwrite f cursor (take n bytes)) (cursor + n) (take k (drop n bytes)) a
      ≡ overwrite f cursor (take (n + k) bytes) a
joined_part f cursor n k bytes le a =
    let e : length (take n bytes) ≡ n = omega (arith, length-take n bytes) in
    ap (λ j. overwrite (overwrite f cursor (take n bytes)) (cursor + j) (take k (drop n bytes)) a)
      (sym e)
    ∙ overwrite-append f cursor (take n bytes) (take k (drop n bytes)) a
    ∙ ap (λ xs. overwrite f cursor xs a) (take_add n k bytes)

module _ (D : Digest) (J : ManifestJson) (B : RemoteBackend) (C : Channel B)
    (readable : IsReadable D B C) (m : BlockMap) (sized : IsSized m) where
  -- All of `bytes` is written behind `cursor`, or the first `k` of them, and the rest refused.
  pub data Attempt (f : ℕ → ℕ) (d : BlockDevice B) (cursor : ℕ) (bytes : List ℕ)
      (r : Result Error (Unit {0}) × BlockDevice B) : Type 0 where
    written :
        r.0 ≡ ok tt
        → Represents D B C m (overwrite f cursor bytes) r.1
        → r.1.committer ≡ d.committer
        → Attempt f d cursor bytes r
    refused :
        (k : ℕ)
        → k < length bytes
        → r.0 ≡ err backpressure
        → Represents D B C m (overwrite f cursor (take k bytes)) r.1
        → Attempt f d cursor bytes r

  onward :
      (f : ℕ → ℕ) (d e : BlockDevice B) (cursor n : ℕ) (bytes : List ℕ)
      (r : Result Error (Unit {0}) × BlockDevice B)
      → n ≤ length bytes
      → e.committer ≡ d.committer
      → Attempt (overwrite f cursor (take n bytes)) e (cursor + n) (drop n bytes) r
      → Attempt f d cursor bytes r
  onward f d e cursor n bytes r le same (written done rep kept) =
      written done (Represents-eq D J B C readable m sized _ _ r.1 (joined f cursor n bytes le) rep)
        (kept ∙ same)
  onward f d e cursor n bytes r le same (refused k lt done rep) =
      refused (n + k) (omega (arith, length-drop n bytes)) done
        (Represents-eq D J B C readable m sized _ _ r.1 (joined_part f cursor n k bytes le) rep)

  write_loop-Attempt :
      (fuel cursor : ℕ) (bytes : List ℕ) (f : ℕ → ℕ) (d : BlockDevice B)
      → Represents D B C m f d
      → cursor + length bytes ≤ m.device_size
      → length bytes ≤ fuel
      → Attempt f d cursor bytes (write_loop D J B fuel cursor bytes d)
  write_loop-Attempt fuel cursor [] f d r fits le =
      unfold write_loop in
      written refl (Represents-eq D J B C readable m sized f _ d (overwrite_nil f cursor) r) refl
  write_loop-Attempt zero cursor (b ∷ bytes) f d r fits le = absurd (omega arith)
  write_loop-Attempt (suc fuel) cursor (b ∷ bytes) f d r fits le =
      elim (le_total d.max_dirty_objects (length d.store.dirty_rows)) [
        | inl full ↦
            let (done, rep) =
              write_loop_full D J B C readable m sized f fuel cursor b bytes d r fits full in
            refused 0 (omega arith) done
              (Represents-eq D J B C readable m sized f _ _ (overwrite_nil f cursor) rep)
        | inr room ↦
            let n : ℕ = min (suc (length bytes)) (m.object_size - cursor % m.object_size) in
            let p : Place m cursor (cursor / m.object_size) (cursor % m.object_size) =
              place m cursor sized (omega arith) in
            let g : Round D J B C readable m sized f d fuel cursor n (b ∷ bytes) =
              round D J B C readable m sized f d fuel cursor b bytes n r fits refl room in
            rw g.steps (
              onward f d g.after cursor n (b ∷ bytes) _ (omega arith) g.same_committer (
                write_loop-Attempt fuel (cursor + n) (drop n (b ∷ bytes))
                  (overwrite f cursor (take n (b ∷ bytes))) g.after g.represents
                  (omega (arith, length-drop n (b ∷ bytes)))
                  (omega (arith, p.inside, length-drop n (b ∷ bytes)))))
      ]

  -- On a channel that can be read, a write inside the device either succeeds, and the device represents
  -- the disk that is overwritten in that range, with the same committer; or it is refused for its dirty
  -- rows after a proper part of the bytes, and the device represents the disk overwritten by that part.
  pub write_at_Attempt :
      (offset : ℕ) (bytes : List ℕ) (f : ℕ → ℕ) (d : BlockDevice B)
      → Represents D B C m f d
      → offset + length bytes ≤ m.device_size
      → Attempt f d offset bytes (write_at D J B offset bytes d)
  unfolding write_at
  write_at_Attempt offset bytes f d r fits =
      rw (write_fits D B C m f sized d offset bytes r fits)
        (write_loop-Attempt (length bytes) offset bytes f d r fits (omega arith))
