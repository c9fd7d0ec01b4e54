-- ===== src/Fs/Fat/Read/Loop.antt =====
-- kernel/fs/fat/fat.c: the loop of FAT_Read.
use valecium.Prelude.{
  ℕ, zero, suc, ◌+◌, ◌-◌, ◌/◌, ◌%◌, ◌^◌, ◌≤◌, ◌<◌, ◌≡◌, refl, sym, ap, ◌∙◌, arith, inl, inr,
  Bool-cases, Option, some, ltb, List, ◌++◌,
}
use valecium.Fs.Fat.{Sectors, Instance}
use valecium.Fs.Fat.Disk.{Lawful}
use valecium.Fs.Fat.Mirror.{Mirrors}
use valecium.Fs.Fat.Files.{FileData, Volume, handle}
use valecium.Fs.Fat.Read.{eof_marker, bytes_from, next_in_chain, read_loop}
use valecium.Fs.Fat.Read.Chain.{chain, file_bytes, Chained, cached}
use valecium.Fs.Fat.Read.Content.{Reads, file_bytes-append, step_lem}
use mathlib.Core.List.{append_assoc, append-nil}
use valecium.Fs.Fat.Read.Position.{At, At-sector, taken_lem, At-within}
use valecium.Fs.Fat.Read.Rounds.{read_loop_done, next_in_chain-position, round_lem, last_round_lem}

module _ {S : Type 0} (sectors : Sectors S) (disk : Lawful sectors) (s : S) (vol : Volume)
    (h : ℕ) where
  -- What has been read from a position on, and the file then, if it goes on there.
  pub record ReadFrom (inst : Instance) (size p n : ℕ) (first : ℕ) (out : List ℕ)
      (result : Option (List ℕ × (Instance × FileData))) : Type 0 where
    pub state : Instance × FileData
    pub bytes : result ≡ some (out ++ file_bytes inst (disk.content s) first p n, state)
    pub moved : state.1.position ≡ p + n
    pub further :
        p + n < size
        → (c : ℕ → ℕ) × (pos : ℕ) × (state.0 ≡ cached inst c pos)
          × Mirrors sectors disk (cached inst c pos) s
          × (state.1.first_cluster ≡ first)
          × At inst (disk.content s) size (p + n) state.1

  join_lem :
      (inst : Instance) (size p now n first : ℕ) (out out' : List ℕ)
      (result : Option (List ℕ × (Instance × FileData)))
      → out' ≡ out ++ file_bytes inst (disk.content s) first p now
      → now ≤ n
      → ReadFrom inst size (p + now) (n - now) first out' result
      → ReadFrom inst size p n first out result
  join_lem inst size p now n first out out' result e le rest =
      let content = disk.content s in
      let sum : now + (n - now) ≡ n = omega arith in
      let sum' : p + now + (n - now) ≡ p + n = omega arith in
      let front = file_bytes inst content first p now in
      let back = file_bytes inst content first (p + now) (n - now) in
      let both : out' ++ back ≡ out ++ file_bytes inst content first p n =
        ap (λ (o : List ℕ). o ++ back) e
        ∙ append_assoc out front back
        ∙ ap (λ (o : List ℕ). out ++ o)
            (file_bytes-append inst content first p now (n - now)
              ∙ ap (file_bytes inst content first p) sum) in
      record {
        state = rest.state;
        bytes = rest.bytes ∙ ap (λ (o : List ℕ). some (o, rest.state)) both;
        moved = rest.moved ∙ sum';
        further = λ more. rw sum' at (rest.further (rw (sym sum') at more));
      }

  loop_inside :
      (fuel n rounds p size : ℕ) (out : List ℕ) (inst : Instance) (c : ℕ → ℕ) (pos : ℕ)
      (fd : FileData)
      → Mirrors sectors disk (cached inst c pos) s
      → At inst (disk.content s) size p fd
      → p + n < 2 ^ 32
      → 0 < n
      → 0 < fuel
      → p % 512 + n < 512
      → ReadFrom inst size p n fd.first_cluster out
          (read_loop sectors s (suc fuel) vol (handle h) n rounds out (cached inst c pos, fd))
  loop_inside fuel n rounds p size out inst c pos fd m at small positive enough inside =
      let st : Instance × FileData =
        (cached inst c pos, record fd { position = fd.position + n }) in
      record {
        state = st;
        bytes =
            last_round_lem sectors s vol h fuel n rounds (p % 512) out (cached inst c pos) fd
              (ap (λ (x : ℕ). x % 512) at.place) positive enough inside (omega (arith, at.place))
            ∙ ap (λ (o : List ℕ). some (out ++ o, st))
                (taken_lem disk s inst p n size fd at (omega arith));
        moved = omega (arith, at.place);
        further = λ more. (c, pos, refl, m, refl, At-within disk s inst p n size fd at inside);
      }

  -- The last sector of the file is left.
  loop_last :
      (fuel n rounds p size : ℕ) (out : List ℕ) (inst : Instance) (c : ℕ → ℕ) (pos : ℕ)
      (fd : FileData)
      → At inst (disk.content s) size p fd
      → p + n < 2 ^ 32
      → 0 < fuel
      → rounds < 10000
      → p + n ≡ size
      → p % 512 + n ≡ 512
      → ReadFrom inst size p n fd.first_cluster out
          (read_loop sectors s (suc fuel) vol (handle h) n rounds out (cached inst c pos, fd))
  loop_last fuel n rounds p size out inst c pos fd at small enough few over end =
      let len : 512 - p % 512 ≡ n = omega arith in
      let there : FileData = record fd { position = fd.position + n } in
      let step = next_in_chain sectors s (eof_marker inst.fat_type) (cached inst c pos) there in
      let out' = out ++ bytes_from fd.buffer (p % 512) n in
      let round = rw len at (
        round_lem sectors s vol h fuel n rounds (p % 512) out (cached inst c pos) fd
          (ap (λ (x : ℕ). x % 512) at.place) (omega arith) (omega (arith, at.place)) few) in
      let none_left : n - n ≡ 0 = omega arith in
      let stopped : read_loop sectors s (suc fuel) vol (handle h) n rounds out
            (cached inst c pos, fd)
          ≡ some (out', step.1) =
        elim (Bool-cases step.0) [
          | inl go ↦
              round
              ∙ rw (go, none_left)
                  (read_loop_done sectors s vol h fuel (rounds + 1) out' step.1 enough)
          | inr stop ↦ round ∙ rw stop refl
        ] in
      record {
        state = step.1;
        bytes =
            stopped
            ∙ ap (λ (o : List ℕ). some (out ++ o, step.1))
                (taken_lem disk s inst p n size fd at (omega arith));
        moved =
            next_in_chain-position sectors s vol h (eof_marker inst.fat_type) (cached inst c pos)
              there
            ∙ omega (arith, at.place);
        further = λ more. absurd (omega arith);
      }

  -- A sector is left and the next one is read.
  loop_on :
      (fuel n rounds p size : ℕ) (out : List ℕ) (inst : Instance) (c : ℕ → ℕ) (pos : ℕ)
      (fd : FileData)
      → Reads sectors disk s
      → Chained inst (disk.content s) fd.first_cluster size
      → Mirrors sectors disk (cached inst c pos) s
      → At inst (disk.content s) size p fd
      → size < 2 ^ 32
      → rounds < 10000
      → 512 ≤ p % 512 + n
      → p + (512 - p % 512) < size
      → let now = 512 - p % 512 in
        (c' : ℕ → ℕ) × (pos' : ℕ) × (fd' : FileData) × (read_loop sectors s
            (suc fuel)
            vol
            (handle h)
            n
            rounds
            out
            (cached inst c pos, fd)
          ≡ read_loop sectors s fuel vol
              (handle h)
              (n - now)
              (rounds + 1)
              (out ++ bytes_from fd.buffer (p % 512) now)
              (cached inst c' pos', fd'))
        × Mirrors sectors disk (cached inst c' pos') s
        × (fd'.first_cluster ≡ fd.first_cluster)
        × At inst (disk.content s) size (p + now) fd'
  loop_on fuel n rounds p size out inst c pos fd reads linked m at small few much more =
      let now = 512 - p % 512 in
      let there : FileData = record fd { position = fd.position + now } in
      let q = p / 512 in
      let next : (p + now) / 512 ≡ q + 1 = omega arith in
      let (c', pos', b, e, bytes, m') =
        step_lem sectors disk s inst c pos size q there reads linked m (omega arith) at.cluster
          at.sector in
      let round =
        round_lem sectors s vol h fuel n rounds (p % 512) out (cached inst c pos) fd
          (ap (λ (x : ℕ). x % 512) at.place) much (omega (arith, at.place)) few in
      (
        c',
        pos',
        record there {
          current_sector_in_cluster = (q + 1) % inst.sectors_per_cluster;
          current_cluster =
              chain inst (disk.content s) fd.first_cluster ((q + 1) / inst.sectors_per_cluster);
          buffer = b;
        },
        rw e at round,
        m',
        refl,
        At-sector inst (disk.content s) size (p + now) (q + 1) _ next at.extent
            (omega (arith, at.place)) refl refl bytes,
      )

  -- The loop of `FAT_Read` reads on in a file.
  pub loop_lem :
      (fuel n rounds p size : ℕ) (out : List ℕ) (inst : Instance) (c : ℕ → ℕ) (pos : ℕ)
      (fd : FileData)
      → Reads sectors disk s
      → Chained inst (disk.content s) fd.first_cluster size
      → Mirrors sectors disk (cached inst c pos) s
      → At inst (disk.content s) size p fd
      → p + n ≤ size
      → size < 2 ^ 32
      → n < fuel
      → rounds + (p % 512 + n) / 512 ≤ 10000
      → ReadFrom inst size p n fd.first_cluster out
          (read_loop sectors s fuel vol (handle h) n rounds out (cached inst c pos, fd))
  loop_lem zero n rounds p size out inst c pos fd reads linked m at fits small enough few =
      absurd (omega arith)
  loop_lem (suc fuel) zero rounds p size out inst c pos fd reads linked m at fits small enough few =
      let st : Instance × FileData = (cached inst c pos, fd) in
      let same : p + 0 ≡ p = omega arith in
      record {
        state = st;
        bytes =
            read_loop_done sectors s vol h (suc fuel) rounds out st enough
            ∙ ap (λ (o : List ℕ). some (o, st)) (sym (append-nil out));
        moved = at.place ∙ sym same;
        further = λ more. (c, pos, refl, m, refl, rw same at);
      }
  loop_lem (suc fuel) (suc n) rounds p size out inst c pos fd reads linked m at fits small enough
        few =
      let now = 512 - p % 512 in
      elim (Bool-cases (ltb (p % 512 + suc n) 512)) [
        | inl inside ↦
            loop_inside fuel (suc n) rounds p size out inst c pos fd m at (omega arith)
              (omega arith) (omega arith) (ground arith)
        | inr over ↦ elim (Bool-cases (ltb (p + now) size)) [
          | inl more ↦
              let much : 512 ≤ p % 512 + suc n = ground arith in
              let (c', pos', fd', e, m', same, at') =
                loop_on fuel (suc n) rounds p size out inst c pos fd reads linked m at small
                  (omega arith) much (ground arith) in
              let out' = out ++ bytes_from fd.buffer (p % 512) now in
              let linked' : Chained inst (disk.content s) fd'.first_cluster size = rw same linked in
              let rest =
                loop_lem fuel (suc n - now) (rounds + 1) (p + now) size out' inst c' pos' fd' reads
                  linked' m' at' (omega arith) small (omega arith) (omega arith) in
              rw e (
                join_lem inst size p now (suc n) fd.first_cluster out out' _
                  (ap (λ (o : List ℕ). out ++ o)
                    (taken_lem disk s inst p now size fd at (omega arith)))
                  (omega arith) (rw same at rest))
          | inr last ↦
              let end : p % 512 + suc n ≡ 512 = ground arith in
              loop_last fuel (suc n) rounds p size out inst c pos fd at (omega arith) (omega arith)
                (omega arith) (ground arith) end
        ]
      ]
