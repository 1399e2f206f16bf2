-- ===== src/Server/Files/Below.antt =====
-- Which files are sent: those that lie below the base directory when all links are resolved.
use dbslayer.Prelude.{
  starts_with, ◌≡◌, ◌⊎◌, inl, inr, refl, ap₂, Bool, true, false, [], ◌∷◌, ◌++◌, Bytes, codes,
  get_or, Option, none, some, arith, if◌then◌else◌,
}
use dbslayer.Server.Files.{
  FileSystem, FileInfo, Response, contains, is_under, not_found, file_response, after_open,
  after_stat, after_realpath, index_page, fileserver,
}

-- the directory itself or a path in it: behind the directory's name there is a slash or nothing
pub record IsBelow (base path : Bytes) : Type 0 where
  pub rest : Bytes
  pub path_eq : path ≡ base ++ rest
  pub slash : (get_or rest 0 0 ≡ b'/') ⊎ (get_or rest 0 0 ≡ 0)

is_under-IsBelow : (base path : Bytes) → is_under base path ≡ true → IsBelow base path
unfolding is_under starts_with
is_under-IsBelow [] path h = record { rest = path; path_eq = refl; slash = ground (arith, h) }
is_under-IsBelow (b ∷ base) [] h = absurd (ground (arith, h))
is_under-IsBelow (b ∷ base) (c ∷ path) h =
    let below = is_under-IsBelow base path (ground (arith, h)) in
    record {
      rest = below.rest;
      path_eq = ap₂ (λ x xs. x ∷ xs) (ground (arith, h)) below.path_eq;
      slash = below.slash;
    }

IsBelow-is_under : (base rest : Bytes) → is_under base (base ++ b'/' ∷ rest) ≡ true
unfolding is_under starts_with
IsBelow-is_under [] rest = refl
IsBelow-is_under (b ∷ base) rest = ground (arith, IsBelow-is_under base rest)

-- what must have happened when the file for `page` was sent
pub record Sent (fs : FileSystem) (basedir page : Bytes) (response : Response) : Type 0 where
  pub base : Bytes
  pub resolved : Bytes
  pub info : FileInfo
  pub content : Bytes
  pub base_eq : fs.realpath basedir ≡ some base
  pub resolved_eq : fs.realpath (basedir ++ page) ≡ some resolved
  pub below : IsBelow base resolved
  pub stat_eq : fs.stat resolved ≡ some info
  pub regular : info.is_regular ≡ true
  pub open_eq : fs.file_open resolved ≡ some content
  pub response_eq : response ≡ file_response page info content

module _ (fs : FileSystem) (basedir page : Bytes) where
  Outcome : Response → Type 0
  Outcome response = (response ≡ not_found) ⊎ Sent fs basedir page response

  open_lem :
      (base resolved : Bytes) (info : FileInfo) (opened : Option Bytes)
      → fs.realpath basedir ≡ some base
      → fs.realpath (basedir ++ page) ≡ some resolved
      → IsBelow base resolved
      → fs.stat resolved ≡ some info
      → info.is_regular ≡ true
      → fs.file_open resolved ≡ opened
      → Outcome (after_open page info opened)
  unfolding Outcome
  open_lem base resolved info none b r u s g o = inl refl
  open_lem base resolved info (some content) b r u s g o = inr (record {
    base = base;
    resolved = resolved;
    info = info;
    content = content;
    base_eq = b;
    resolved_eq = r;
    below = u;
    stat_eq = s;
    regular = g;
    open_eq = o;
    response_eq = refl;
  })

  regular_lem :
      (base resolved : Bytes) (info : FileInfo) (regular : Bool)
      → fs.realpath basedir ≡ some base
      → fs.realpath (basedir ++ page) ≡ some resolved
      → IsBelow base resolved
      → fs.stat resolved ≡ some info
      → info.is_regular ≡ regular
      → Outcome (if regular then after_open page info (fs.file_open resolved) else not_found)
  unfolding Outcome
  regular_lem base resolved info true b r u s g =
      open_lem base resolved info (fs.file_open resolved) b r u s g refl
  regular_lem base resolved info false b r u s g = inl refl

  stat_lem :
      (base resolved : Bytes) (stat : Option FileInfo)
      → fs.realpath basedir ≡ some base
      → fs.realpath (basedir ++ page) ≡ some resolved
      → IsBelow base resolved
      → fs.stat resolved ≡ stat
      → Outcome (after_stat fs page resolved stat)
  unfolding Outcome
  stat_lem base resolved none b r u s = inl refl
  stat_lem base resolved (some info) b r u s =
      regular_lem base resolved info info.is_regular b r u s refl

  under_lem :
      (base resolved : Bytes) (under : Bool)
      → fs.realpath basedir ≡ some base
      → fs.realpath (basedir ++ page) ≡ some resolved
      → is_under base resolved ≡ under
      → Outcome (if under then after_stat fs page resolved (fs.stat resolved) else not_found)
  unfolding Outcome
  under_lem base resolved true b r u =
      stat_lem base resolved (fs.stat resolved) b r (is_under-IsBelow base resolved u) refl
  under_lem base resolved false b r u = inl refl

  pub realpath_lem :
      (base resolved : Option Bytes)
      → fs.realpath basedir ≡ base
      → fs.realpath (basedir ++ page) ≡ resolved
      → (after_realpath fs page base resolved ≡ not_found)
        ⊎ Sent fs basedir page (after_realpath fs page base resolved)
  unfolding Outcome
  realpath_lem (some base) (some resolved) b r =
      under_lem base resolved (is_under base resolved) b r refl
  realpath_lem (some base) none b r = inl refl
  realpath_lem none resolved b r = inl refl

-- For every file system and request the answer is "Not Found", or the request's path has no "..", and
-- what is sent with the code 200 is the content of a regular file, up to the size that the file system
-- gave for it, whose real path lies below the real path of the base directory.
pub fileserver-Sent :
    (fs : FileSystem) (basedir query : Bytes)
    → (fileserver fs (some basedir) (some query) ≡ not_found)
      ⊎ ((contains (codes "..") query ≡ false)
          × Sent fs basedir (index_page query) (fileserver fs (some basedir) (some query)))
unfolding fileserver
fileserver-Sent fs basedir query = dots_lem (contains (codes "..") query) refl
  where
    answer : Response
    answer =
        after_realpath fs (index_page query) (fs.realpath basedir)
          (fs.realpath (basedir ++ index_page query))

    dots_lem :
        (dots : Bool)
        → contains (codes "..") query ≡ dots
        → ((if dots then not_found else answer) ≡ not_found)
          ⊎ ((dots ≡ false)
              × Sent fs basedir (index_page query) (if dots then not_found else answer))
    dots_lem true e = inl refl
    dots_lem false e = elim (realpath_lem fs basedir (index_page query) _ _ refl refl) [
      | inl p ↦ inl p
      | inr sent ↦ inr (refl, sent)
    ]

-- A request without ".." is answered with the content of the file when both real paths exist, the one
-- of the file goes on with a slash behind the one of the base directory, the file is regular and it can
-- be opened.
pub fileserver-file_response :
    (fs : FileSystem) (basedir query base rest content : Bytes) (info : FileInfo)
    → contains (codes "..") query ≡ false
    → fs.realpath basedir ≡ some base
    → fs.realpath (basedir ++ index_page query) ≡ some (base ++ b'/' ∷ rest)
    → fs.stat (base ++ b'/' ∷ rest) ≡ some info
    → info.is_regular ≡ true
    → fs.file_open (base ++ b'/' ∷ rest) ≡ some content
    → fileserver fs (some basedir) (some query) ≡ file_response (index_page query) info content
unfolding fileserver
fileserver-file_response fs basedir query base rest content info d b r s g o =
    rw d (rw b (rw r (rw (IsBelow-is_under base rest) (rw s (rw g (rw o))))))
