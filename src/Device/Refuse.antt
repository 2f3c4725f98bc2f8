-- ===== src/Device/Refuse.antt =====
-- What the device refuses, and that it changes nothing.
use telegram_block_device.Prelude.{
  ℕ, suc, ◌+◌, ◌-◌, ◌/◌, ◌%◌, ◌^◌, ◌≤◌, ◌<◌, ◌≡◌, refl, ◌∙◌, ap, false, List, ◌∷◌, ok, err, min, [],
  inl, inr, Bool-cases, Result, leb→le, take, splice, length, arith, ltb, leb, length-take,
}
use telegram_block_device.Format.Digest.{Digest}
use telegram_block_device.Format.Manifest.{ManifestJson}
use telegram_block_device.Errors.{
  Error, offset_out_of_bounds, read_out_of_bounds, write_out_of_bounds, backpressure,
}
use telegram_block_device.Cache.{stats}
use telegram_block_device.Block.{BlockMap, locate}
use telegram_block_device.Backend.{RemoteBackend, Channel, IsReadable}
use telegram_block_device.Device.{
  BlockDevice, base_object, write_dirty_object, read_loop, write_loop, read_at, write_at,
}
use telegram_block_device.Device.Represents.{
  write_fits, IsSized, Represents, Represents-Fills, Place, place,
}
use telegram_block_device.Device.Write.{Based, base_object_lem}

beyond : (a b : ℕ) → b < a → leb a b ≡ false
beyond a b h = ground arith

full : (a b : ℕ) → b ≤ a → ltb a b ≡ false
full a b h = ground arith

-- An access is refused for its range, or, where the sum of the range leaves the u64 and the test of the
-- range may pass, for its first address; the device stays as it is.
pub data Refused {A : Type 0} {B : RemoteBackend} (e : Error) (end : ℕ) (d : BlockDevice B)
    (r : Result Error A × BlockDevice B) : Type 0 where
  by_range : r ≡ (err e, d) → Refused e end d r
  by_place : 2 ^ 64 ≤ end → r ≡ (err offset_out_of_bounds, d) → Refused e end d r

module _ (D : Digest) (J : ManifestJson) (B : RemoteBackend) (d : BlockDevice B) where
  placed_nowhere :
      (offset : ℕ) → d.map.device_size ≤ offset → locate d.map offset ≡ err offset_out_of_bounds
  unfolding locate
  placed_nowhere offset h = rw (full _ _ h) refl

  refused_loops :
      (offset b : ℕ) (bytes : List ℕ)
      → d.map.device_size ≤ offset
      → (read_loop D J B (suc (length bytes)) (suc (length bytes)) offset [] d
          ≡ (err offset_out_of_bounds, d))
        × (write_loop D J B (suc (length bytes)) offset (b ∷ bytes) d
            ≡ (err offset_out_of_bounds, d))
  unfolding read_loop write_loop
  refused_loops offset b bytes h =
      (rw (placed_nowhere offset h) refl, rw (placed_nowhere offset h) refl)

  -- On a device of less than 2^63 bytes, a read or a write of less than 2^63 bytes from any address of a u64
  -- that ends behind the device is refused and changes nothing, also where the sum of its range wraps.
  pub out_of_bounds_lem :
      (offset : ℕ) (bytes : List ℕ)
      → d.map.device_size < 2 ^ 63
      → offset < 2 ^ 64
      → length bytes < 2 ^ 63
      → d.map.device_size < offset + length bytes
      → Refused read_out_of_bounds (offset + length bytes) d (read_at D J B offset (length bytes) d)
        × Refused write_out_of_bounds (offset + length bytes) d (write_at D J B offset bytes d)
  unfolding read_at write_at
  out_of_bounds_lem offset [] size from short behind =
      let test : leb ((offset + 0) % 2 ^ 64) d.map.device_size ≡ false = beyond _ _ (omega arith) in
      (by_range (rw test refl), by_range (rw test refl))
  out_of_bounds_lem offset (b ∷ bytes) size from short behind =
      elim (Bool-cases (leb ((offset + suc (length bytes)) % 2 ^ 64) d.map.device_size)) [
        | inr test ↦ (by_range (rw test refl), by_range (rw test refl))
        | inl test ↦
            let le : (offset + suc (length bytes)) % 2 ^ 64 ≤ d.map.device_size = leb→le _ _ test in
            let wraps : 2 ^ 64 ≤ offset + suc (length bytes) = omega arith in
            let (no_read, no_write) = refused_loops offset b bytes (omega arith) in
            (by_place wraps (rw (test, no_read) refl), by_place wraps (rw (test, no_write) refl))
      ]

module _ (D : Digest) (J : ManifestJson) (B : RemoteBackend) (C : Channel B) where
  write_dirty_object_full :
      (id at n : ℕ) (object : List ℕ) (d : BlockDevice B)
      → d.max_dirty_objects ≤ length d.store.dirty_rows
      → write_dirty_object D J B id object at n d ≡ (err backpressure, d)
  unfolding write_dirty_object stats
  write_dirty_object_full id at n object d h = rw (full _ _ h) refl

  pub write_loop_full :
      (readable : IsReadable D B C) (m : BlockMap) (sized : IsSized m) (f : ℕ → ℕ)
      (fuel cursor b : ℕ) (bytes : List ℕ) (d : BlockDevice B)
      → Represents D B C m f d
      → cursor + suc (length bytes) ≤ m.device_size
      → d.max_dirty_objects ≤ length d.store.dirty_rows
      → ((write_loop D J B (suc fuel) cursor (b ∷ bytes) d).0 ≡ err backpressure)
        × Represents D B C m f (write_loop D J B (suc fuel) cursor (b ∷ bytes) d).1
  unfolding write_loop
  write_loop_full readable m sized f fuel cursor b bytes d r fits h =
      let id : ℕ = cursor / m.object_size in
      let at : ℕ = cursor % m.object_size in
      let n : ℕ = min (suc (length bytes)) (m.object_size - at) in
      let p : Place m cursor id at = place m cursor sized (omega arith) in
      let len : length (take n (b ∷ bytes)) ≡ n = omega (arith, length-take n (b ∷ bytes)) in
      let base : Based D J B C readable m sized f d id at n (take n (b ∷ bytes)) =
        base_object_lem D J B C readable m sized f d id at n _ r p.id_fits p.object_inside len in
      let e : BlockDevice B = (base_object D J B id at n d).1 in
      let located : locate d.map cursor ≡ ok (id, at) =
        ap (λ m'. locate m' cursor) r.same_map ∙ p.found in
      let taken : min (suc (length bytes)) (d.map.object_size - at) ≡ n =
        ap (λ m'. min (suc (length bytes)) (m'.object_size - at)) r.same_map in
      let still_full : e.max_dirty_objects ≤ length e.store.dirty_rows =
        rw (base.fills.same_limit, base.fills.same_rows) h in
      let refused : write_dirty_object D J B id (splice base.object at (take n (b ∷ bytes))) at n e
          ≡ (err backpressure, e) =
        write_dirty_object_full id at n _ e still_full in
      rw (located, taken, base.value, refused) (refl, Represents-Fills D B C m f sized r base.fills)

  -- On a channel that can be read, a write of a byte or more inside a device that has as many dirty
  -- rows as its limit is refused, even where it would overwrite a dirty object, and the device
  -- represents the same disk after it.
  pub backpressure_lem :
      (m : BlockMap) (f : ℕ → ℕ) (offset b : ℕ) (bytes : List ℕ) (d : BlockDevice B)
      → IsReadable D B C
      → IsSized m
      → Represents D B C m f d
      → offset + suc (length bytes) ≤ m.device_size
      → d.max_dirty_objects ≤ length d.store.dirty_rows
      → ((write_at D J B offset (b ∷ bytes) d).0 ≡ err backpressure)
        × Represents D B C m f (write_at D J B offset (b ∷ bytes) d).1
  unfolding write_at
  backpressure_lem m f offset b bytes d readable sized r fits h =
      rw (write_fits D B C m f sized d offset (b ∷ bytes) r fits)
        (write_loop_full readable m sized f (length bytes) offset b bytes d r fits h)
