-- ===== src/Fs/Fat/Read/Rounds.antt =====
-- kernel/fs/fat/fat.c: the rounds of the loop of FAT_Read.
use valecium.Prelude.{
  ℕ, zero, suc, ◌+◌, ◌-◌, ◌%◌, ◌^◌, ◌≤◌, ◌<◌, ◌≡◌, refl, true, false, arith, ◌==◌, if◌then◌else◌,
  inl, inr, Bool-cases, Option-cases, some, ltb, leb, u32, List, ◌++◌,
}
use valecium.Fs.Fat.{Sectors, Instance, cluster_to_lba, next_cluster}
use valecium.Fs.Fat.Files.{FileData, Volume, handle}
use valecium.Fs.Fat.Read.{
  eof_marker, bytes_from, load_sector, load_current, next_in_chain, next_sector, read_loop,
}

module _ {S : Type 0} (sectors : Sectors S) (s : S) (vol : Volume) (h : ℕ) where
  pub read_loop_done :
      (fuel rounds : ℕ) (out : List ℕ) (st : Instance × FileData)
      → 0 < fuel
      → read_loop sectors s fuel vol (handle h) 0 rounds out st ≡ some (out, st)
  unfolding read_loop
  read_loop_done zero rounds out st enough = absurd (omega arith)
  read_loop_done (suc fuel) rounds out st enough = refl

  load_current-position :
      (marker : ℕ) (inst : Instance) (fd : FileData)
      → (load_current sectors s marker inst fd).1.1.position ≡ fd.position
  unfolding load_current load_sector
  load_current-position marker inst fd = elim (Bool-cases (leb marker fd.current_cluster)) [
    | inl over ↦ rw (load_current, over) refl
    | inr inside ↦
        let lba = u32 (cluster_to_lba inst fd.current_cluster + fd.current_sector_in_cluster) in
        elim (Option-cases (sectors.read lba 1 s)) [
          | inl failed ↦ rw (load_current, load_sector, inside, failed) refl
          | inr (b, e) ↦ rw (load_current, load_sector, inside, e) refl
        ]
  ]

  pub next_in_chain-position :
      (marker : ℕ) (inst : Instance) (fd : FileData)
      → (next_in_chain sectors s marker inst fd).1.1.position ≡ fd.position
  unfolding next_in_chain
  next_in_chain-position marker inst fd =
      let (next, inst') = next_cluster sectors fd.current_cluster (inst, s) in
      let sector = fd.current_sector_in_cluster + 1 in
      let there : FileData = record fd { current_sector_in_cluster = sector } in
      let other : FileData = record fd { current_sector_in_cluster = 0; current_cluster = next } in
      elim (Bool-cases (ltb sector inst.sectors_per_cluster)) [
        | inl inside ↦ rw (next_in_chain, inside) (load_current-position marker inst there)
        | inr last ↦ elim (Bool-cases (ltb next 2)) [
          | inl stop ↦ rw (next_in_chain, last, stop) refl
          | inr go ↦ rw (next_in_chain, last, go) (load_current-position marker inst' other)
        ]
      ]

  -- One round that leaves the sector: it goes on with what the next sector gives.
  pub round_lem :
      (fuel n rounds off : ℕ) (out : List ℕ) (inst : Instance) (fd : FileData)
      → fd.position % 512 ≡ off
      → 512 ≤ off + n
      → fd.position + (512 - off) < 2 ^ 32
      → rounds < 10000
      → let now = 512 - off in
        let out' = out ++ bytes_from fd.buffer off now in
        let step =
          next_in_chain sectors s
            (eof_marker inst.fat_type)
            inst
            (record fd { position = fd.position + now }) in
        read_loop sectors s (suc fuel) vol (handle h) n rounds out (inst, fd) ≡ (
          if step.0
          then read_loop sectors s fuel vol (handle h) (n - now) (rounds + 1) out' step.1
          else some (out', step.1))
  unfolding read_loop next_sector
  round_lem fuel n rounds off out inst fd e much small few =
      let going : ltb 0 n ≡ true = ground arith in
      let least : ltb n (512 - off) ≡ false = ground arith in
      let same : (512 - off == 512 - off) ≡ true = ground arith in
      let fit : u32 (fd.position + (512 - off)) ≡ fd.position + (512 - off) = omega arith in
      let on : ltb 10000 (rounds + 1) ≡ false = ground arith in
      let step =
        next_in_chain sectors s (eof_marker inst.fat_type) inst
          (record fd { position = fd.position + (512 - off) }) in
      elim (Bool-cases step.0) [
        | inl go ↦ rw (read_loop, going, e, least, same, on, e, least, fit, go, e, least, fit) refl
        | inr stop ↦
            rw (read_loop, going, e, least, same, on, e, least, fit, stop, e, least, fit) refl
      ]

  -- A round that ends inside of the sector.
  pub last_round_lem :
      (fuel n rounds off : ℕ) (out : List ℕ) (inst : Instance) (fd : FileData)
      → fd.position % 512 ≡ off
      → 0 < n
      → 0 < fuel
      → off + n < 512
      → fd.position + n < 2 ^ 32
      → read_loop sectors s (suc fuel) vol (handle h) n rounds out (inst, fd)
        ≡ some (out ++ bytes_from fd.buffer off n, (inst, record fd { position = fd.position + n }))
  unfolding read_loop
  last_round_lem fuel n rounds off out inst fd e positive enough inside small =
      let going : ltb 0 n ≡ true = ground arith in
      let least : ltb n (512 - off) ≡ true = ground arith in
      let other : (512 - off == n) ≡ false = ground arith in
      let fit : u32 (fd.position + n) ≡ fd.position + n = omega arith in
      let within : ((fd.position + n) % 512 == 0) ≡ false = ground arith in
      let done : n - n ≡ 0 = omega arith in
      let moving : ltb 0 (fd.position + n) ≡ true = ground arith in
      rw (read_loop, going, e, least, other, fit, within, moving, e, least, fit, done)
        (read_loop_done fuel rounds (out ++ bytes_from fd.buffer off n)
          (inst, record fd { position = fd.position + n }) enough)
  -- What the buffer gives of a file.
