-- ===== src/Fs/Fat/Read/Position.antt =====
-- kernel/fs/fat/fat.c: an open file at a position.
use valecium.Prelude.{ℕ, ◌+◌, ◌*◌, ◌/◌, ◌%◌, ◌≤◌, ◌<◌, ◌≡◌, arith}
use valecium.Fs.Fat.{Sectors, Instance}
use valecium.Fs.Fat.Disk.{Lawful}
use valecium.Fs.Fat.Files.{FileData}
use valecium.Fs.Fat.Read.{bytes_from}
use valecium.Fs.Fat.Read.Chain.{chain, sector_at, file_bytes}
use valecium.Fs.Fat.Read.Content.{bytes_from-file_bytes}

-- An open file of some size is at a position: its buffer holds the sector there.
pub record At (inst : Instance) (content : ℕ → ℕ) (size p : ℕ) (fd : FileData) : Type 0 where
  pub extent : fd.size ≡ size
  pub place : fd.position ≡ p
  pub cluster :
      fd.current_cluster ≡ chain inst content fd.first_cluster (p / 512 / inst.sectors_per_cluster)
  pub sector : fd.current_sector_in_cluster ≡ p / 512 % inst.sectors_per_cluster
  pub shown :
      (i : ℕ)
      → i < 512
      → fd.buffer i ≡ content (sector_at inst content fd.first_cluster (p / 512) * 512 + i)

pub At-sector :
    (inst : Instance) (content : ℕ → ℕ) (size p q : ℕ) (fd : FileData)
    → p / 512 ≡ q
    → fd.size ≡ size
    → fd.position ≡ p
    → fd.current_cluster ≡ chain inst content fd.first_cluster (q / inst.sectors_per_cluster)
    → fd.current_sector_in_cluster ≡ q % inst.sectors_per_cluster
    → ((i : ℕ)
        → i < 512
        → fd.buffer i ≡ content (sector_at inst content fd.first_cluster q * 512 + i))
    → At inst content size p fd
At-sector inst content size p q fd e extent place cluster sector shown = record {
  extent = extent;
  place = place;
  cluster = rw e cluster;
  sector = rw e sector;
  shown = rw e shown;
}

module _ {S : Type 0} {sectors : Sectors S} (disk : Lawful sectors) (s : S) where
  pub taken_lem :
      (inst : Instance) (p n size : ℕ) (fd : FileData)
      → At inst (disk.content s) size p fd
      → p % 512 + n ≤ 512
      → bytes_from fd.buffer (p % 512) n ≡ file_bytes inst (disk.content s) fd.first_cluster p n
  taken_lem inst p n size fd at fits =
      let whole : p / 512 * 512 + p % 512 ≡ p = omega arith in
      rw whole at (
        bytes_from-file_bytes inst (disk.content s) fd.first_cluster (p / 512) (p % 512) n fd.buffer
          at.shown fits)

  -- A file that stays in its sector.
  pub At-within :
      (inst : Instance) (p n size : ℕ) (fd : FileData)
      → At inst (disk.content s) size p fd
      → p % 512 + n < 512
      → At inst (disk.content s) size (p + n) (record fd { position = fd.position + n })
  At-within inst p n size fd at inside =
      let same : (p + n) / 512 ≡ p / 512 = omega arith in
      record {
        extent = at.extent;
        place = omega (arith, at.place);
        cluster = rw same at.cluster;
        sector = rw same at.sector;
        shown = rw same at.shown;
      }
