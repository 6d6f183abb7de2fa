-- ===== src/AppSet/Loader.antt =====
-- appset/appset.go: reading the app set and keeping the last one that validated.
pub mod LastGood
use swarmcli_cd.Base.{
  ℕ, zero, suc, Bool, true, false, ◌&&◌, Option, none, some, List, [], ◌∷◌, Str, seq, length, ltb,
  Outcome, ok, err, if◌then◌else◌,
}
use swarmcli_cd.Config.Set.{File, Yaml, ParseError, parse}

-- 4 MiB
abbrev pub max_app_set_size : ℕ
max_app_set_size = 4194304

-- `io.LimitReader`: no more than so many of the bytes.
unfoldable pub take : ℕ → List ℕ → List ℕ
take zero xs = []
take (suc n) [] = []
take (suc n) (x ∷ xs) = x ∷ take n xs

-- How a load fails: by what is outside, or by what the file holds.
pub data ReadError (Error : Type 0) : Type 0 where
  fetching reading : Error → ReadError Error
  too_large : ReadError Error

-- `document`, less the path that only prefixes messages.
pub record Document : Type 0 where
  pub bytes : List ℕ
  pub revision : Str

-- What answers outside: the fetcher, with the directory and the commit of a checkout, and the file
-- at a path within a directory, to its end.
pub record Files : Type 1 where
  pub Error : Type 0
  pub fetch : Outcome Error (Str × Str)
  pub file : Str → Str → Outcome Error (List ℕ)

-- `GitConfig` and `PathConfig`, as far as the reads depend on them.
pub data Reader : Type 0 where
  git_reader : Str → Reader
  path_reader : Str → Str → Reader

module _ (files : Files) where
  unfoldable pub read_contained : Str → Str → Outcome (ReadError files.Error) (List ℕ)
  read_contained root path = elim (files.file root path) [
    | err e ↦ err (reading e)
    | ok contents ↦
        let data_read = take (suc max_app_set_size) contents in
        if ltb max_app_set_size (length data_read) then err too_large else ok data_read
  ]

  -- `read`, of the one mode and of the other.
  unfoldable pub read : Reader → Outcome (ReadError files.Error) Document
  read (git_reader path) = elim files.fetch [
    | err e ↦ err (fetching e)
    | ok (dir, revision) ↦ elim (read_contained dir path) [
      | err e ↦ err e
      | ok bytes ↦ ok (record { bytes = bytes; revision = revision })
    ]
  ]
  read (path_reader dir path) = elim (read_contained dir path) [
    | err e ↦ err e
    | ok bytes ↦ ok (record { bytes = bytes; revision = [] })
  ]

-- `Loader`, less its reader and its lock.
pub record Loader : Type 0 where
  pub current : Option File
  pub digest : List ℕ
  pub loaded : Bool
  pub revision : Str
  pub loaded_at : ℕ

-- `sha256` is `sha256.Sum256`, and `now` the clock.
module _ (yaml : Yaml) (lower : ℕ → ℕ) (sha256 : List ℕ → List ℕ) (files : Files) where
  pub data LoadError : Type 0 where
    unreadable : ReadError files.Error → LoadError
    unparsable : ParseError yaml → LoadError

  -- `Load` on a document.
  unfoldable pub load_document :
      Document → ℕ → Loader → Outcome LoadError (Option File × Bool) × Loader
  load_document doc now l =
      if l.loaded && seq (sha256 doc.bytes) l.digest
      then (ok (l.current, false), l)
      else elim (parse yaml lower doc.bytes) [
        | err e ↦ (err (unparsable e), l)
        | ok f ↦ (
          ok (some f, true),
          record {
            current = some f;
            digest = sha256 doc.bytes;
            loaded = true;
            revision = doc.revision;
            loaded_at = now;
          },
        )
      ]

  -- `Load`
  unfoldable pub load : Reader → ℕ → Loader → Outcome LoadError (Option File × Bool) × Loader
  load reader now l = elim (read files reader) [
    | err e ↦ (err (unreadable e), l)
    | ok doc ↦ load_document doc now l
  ]
