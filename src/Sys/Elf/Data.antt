-- ===== src/Sys/Elf/Data.antt =====
-- kernel/sys/elf.c: the loop of ELF_Load over the data of a segment.
use valecium.Prelude.{
  ℕ, zero, suc, ◌+◌, ◌-◌, ◌^◌, ◌≤◌, ◌<◌, ◌≡◌, refl, ap, ◌∙◌, false, arith, ◌==◌, if◌then◌else◌,
  Option, some, ltb, u32, List, fun_ext, length,
}
use valecium.Prelude.{sub32}
use valecium.Mem.Memory.{Memory, within}
use valecium.Sys.Elf.{File, store, load_data}
use valecium.Sys.Elf.Bytes.{bytes_of, Sound, placed, length-bytes_of, store-placed, placed-placed}

module _ {F : Type 0} (file : File F) where
  load_data_step :
      (fuel r dest k : ℕ) (m : Memory) (f : F) (bytes : List ℕ)
      → 0 < r
      → (if ltb 512 r then 512 else r) ≡ k
      → (file.read k f).0 ≡ bytes
      → 0 < length bytes
      → load_data file (suc fuel) r dest m f
        ≡ load_data file fuel
            (sub32 r (length bytes))
            (u32 (dest + length bytes))
            (store m dest bytes)
            (file.read k f).1
  unfolding load_data
  load_data_step fuel r dest k m f bytes positive chunk given some_bytes =
      let more : (r == 0) ≡ false = ground arith in
      let got : (length bytes == 0) ≡ false = ground arith in
      rw (load_data, more, chunk, given, got) refl

  load_data_chunk :
      (fuel r dest p k : ℕ) (content : ℕ → ℕ) (m : Memory) (f : F)
      → 0 < r
      → (if ltb 512 r then 512 else r) ≡ k
      → (file.read k f).0 ≡ bytes_of content p k
      → dest + r < 2 ^ 32
      → load_data file (suc fuel) r dest m f
        ≡ load_data file fuel (r - k) (dest + k) (placed content m dest p k) (file.read k f).1
  load_data_chunk fuel r dest p k content m f positive chunk bytes fits =
      let (some_k, le) : (0 < k) × (k ≤ r) = ground arith in
      let got = length-bytes_of content p k in
      let step =
        load_data_step fuel r dest k m f (bytes_of content p k) positive chunk bytes
          (omega (arith, got)) in
      let left : sub32 r k ≡ r - k = omega arith in
      let on : u32 (dest + k) ≡ dest + k = omega arith in
      step ∙ rw (got, left, on, store-placed content m dest p k) refl

  same_result :
      {d d' : ℕ} {m m' : Memory}
      → d ≡ d'
      → m ≡ m'
      → (f : F)
      → ◌≡◌ {A = Option (Option ℕ × (Memory × F))} (some (some d, (m, f))) (some (some d', (m', f)))
  same_result e e' f = rw (e, e') refl

  pub load_data_lem :
      (fuel r dest p : ℕ) (m : Memory) (f : F) (sound : Sound file)
      → sound.position f ≡ p
      → p + r ≤ sound.size
      → dest + r < 2 ^ 32
      → r < fuel
      → (f' : F) × (load_data file fuel r dest m f
          ≡ some (some (dest + r), (placed sound.content m dest p r, f')))
  unfolding load_data
  load_data_lem zero r dest p m f sound at inside fits enough = absurd (omega arith)
  load_data_lem (suc fuel) zero dest p m f sound at inside fits enough =
      let nothing : placed sound.content m dest p 0 ≡ m =
        fun_ext (λ a. let away : within dest 0 a ≡ false = ground arith in rw away refl) in
      let same : dest + 0 ≡ dest = omega arith in (f, rw (nothing, same) refl)
  load_data_lem (suc fuel) (suc r) dest p m f sound at inside fits enough =
      let n = suc r in
      let content = sound.content in
      let k : ℕ = if ltb 512 n then 512 else n in
      let (some_k, le) : (0 < k) × (k ≤ n) = ground arith in
      let (bytes, there) = sound.given k f (omega (arith, at)) in
      let bytes' : (file.read k f).0 ≡ bytes_of content p k =
        bytes ∙ ap (λ (x : ℕ). bytes_of content x k) at in
      let step = load_data_chunk fuel n dest p k content m f (omega arith) refl bytes' fits in
      let (f', rest) =
        load_data_lem fuel (n - k) (dest + k) (p + k) (placed content m dest p k) (file.read k f).1
          sound (there ∙ ap (λ (x : ℕ). x + k) at) (omega arith) (omega arith) (omega arith) in
      let whole : k + (n - k) ≡ n = omega arith in
      let both = placed-placed content m dest p k (n - k) ∙ ap (placed content m dest p) whole in
      (f', step ∙ rest ∙ same_result (omega arith) both f')
