-- ===== src/Access/Middleware/Readonly.antt =====
-- Which requests the middlewares for read-only SANs refuse.
use Prim.Native.Char.{code}
use Prim.Native.String
use Prim.Native.String.{[], ◌∷◌}
use text.Mathlib.TextEquality.{eq_iff}
use text.Mathlib.TextLemmas.{cons-append, nil-append}
use esos_webui.Access.Prefix.{after_self, clash, clash-after, has_prefix_of_self}
use esos_webui.Access.UriComponent.{decode_uri_component}
use esos_webui.Common.{
  All, Bool, Bool-cases, List, Option-cases, String, [], after, all, all_chars, and_split, arith,
  false, find, includes, inl, inr, is_blank, is_some, none, not, refl, refused, some, str_eq, trim,
  true, ◌++◌, ◌==◌, ◌∷◌, ◌≡◌, ◌≢◌, ◌⊎◌,
}
use esos_webui.Cluster.{SanRow}
use esos_webui.Access.Middleware.{
  single, block_if_readonly, before_slash, san_segment, block_segment, block_query, ApiRequest,
  has_prefix_of, is_read_method, find_san, san_readonly, storage_readonly, mutation_prefixes,
  readonly_error,
}

abbrev pub changing_methods : List String
changing_methods = "POST" ∷ "PUT" ∷ "PATCH" ∷ "DELETE" ∷ []

-- Where the routes that change the storage of a node are.
abbrev pub storage_areas : List String
storage_areas =
    "/api/raid/" ∷ "/api/lvm/" ∷ "/api/fs/" ∷ "/api/targets/" ∷ "/api/devices/" ∷ "/api/cluster/"
    ∷ "/api/admin/upgrade/" ∷ []

-- The first row with the id is that of a read-only SAN.
abbrev pub IsLocked : List SanRow → String → Type 0
IsLocked sans id =
    (before : List SanRow) × (san : SanRow) × (later : List SanRow) × (sans
      ≡ before ++ (san ∷ later))
    × All (λ s. s.id ≢ id) before
    × (san.id ≡ id)
    × (san.read_only ≡ true)

find_san-first :
    (before later : List SanRow) (san : SanRow) (id : String)
    → All (λ s. s.id ≢ id) before
    → san.id ≡ id
    → find_san (before ++ (san ∷ later)) id ≡ some san
unfolding find_san
find_san-first [] later san id others same = ground (arith, (eq_iff san.id id).1 same)
find_san-first (s ∷ before) later san id (other, others) same = elim (Bool-cases (str_eq s.id id)) [
  | inl e ↦ absurd (other ((eq_iff s.id id).0 e))
  | inr e ↦ rw (find_san, find, e) (find_san-first before later san id others same)
]

find_san-locked :
    (sans : List SanRow) (id : String)
    → IsLocked sans id
    → (san : SanRow) × (find_san sans id ≡ some san) × (san.read_only ≡ true)
find_san-locked sans id (before, san, later, split, others, same, locked) =
    (san, rw split (find_san-first before later san id others same), locked)

includes-all :
    (p : String → Bool) (m : String) (ms : List String)
    → all p ms ≡ true
    → includes m ms ≡ true
    → p m ≡ true
unfolding all includes
includes-all p m [] h k = absurd (cc k)
includes-all p m (n ∷ ms) h k =
    let (here, later) = and_split _ _ h in
    elim (Bool-cases (str_eq n m)) [
      | inl e ↦ rw (← (eq_iff n m).0 e) here
      | inr e ↦ includes-all p m ms later (ground arith)
    ]

is_read_method-changing :
    (m : String) → includes m changing_methods ≡ true → is_read_method m ≡ false
unfolding is_read_method all
is_read_method-changing m h =
    let changes = includes-all (λ n. not (is_read_method n)) m changing_methods refl h in
    ground (arith, changes)

has_prefix_of-area :
    (area rest : String)
    → includes area storage_areas ≡ true
    → has_prefix_of mutation_prefixes (String.◌++◌ area rest) ≡ true
has_prefix_of-area area rest h = has_prefix_of_self area rest storage_areas h

-- A request with POST, PUT, PATCH or DELETE at a path that begins with /api/raid/, /api/lvm/,
-- /api/fs/, /api/targets/, /api/devices/, /api/cluster/ or /api/admin/upgrade/ is refused with 403 if
-- its query names, once and up to white space around it, the id of a read-only SAN.
pub storage_readonly-refused :
    (sans : List SanRow) (req : ApiRequest) (area rest id : String)
    → includes req.method changing_methods ≡ true
    → includes area storage_areas ≡ true
    → req.path ≡ String.◌++◌ area rest
    → req.san_id_query ≡ single id
    → is_blank id ≡ false
    → IsLocked sans (trim id)
    → storage_readonly sans req ≡ refused 403 "SAN is read-only"
unfolding storage_readonly
storage_readonly-refused sans req area rest id change area_here path query full locked =
    let (san, found, closed) = find_san-locked sans (trim id) locked in
    rw
      (
        is_read_method-changing req.method change,
        path,
        has_prefix_of-area area rest area_here,
        query,
        full,
        found,
        closed,
      )
      refl

before_slash-split :
    (segment rest : String)
    → all_chars (λ c. not (c == b'/')) segment ≡ true
    → before_slash (String.◌++◌ segment ("/" ∷ rest)) ≡ some segment
unfolding before_slash all_chars
before_slash-split [] rest h = rw nil-append refl
before_slash-split (c ∷ segment) rest h =
    let (here, later) =
      and_split (not (code c == b'/')) (all_chars (λ d. not (d == b'/')) segment) h in
    rw cons-append (ground (arith, before_slash-split segment rest later))

find_san-blocks :
    (sans : List SanRow) (id : String)
    → is_blank id ≡ false
    → IsLocked sans id
    → block_if_readonly sans (some id) ≡ refused 403 readonly_error
unfolding block_if_readonly
find_san-blocks sans id full locked =
    let (san, found, closed) = find_san-locked sans id locked in rw (full, found, closed) refl

san_segment-split :
    (segment rest : String)
    → all_chars (λ c. not (c == b'/')) segment ≡ true
    → is_blank segment ≡ false
    → san_segment (String.◌++◌ "/api/san/" (String.◌++◌ segment ("/" ∷ rest))) ≡ some segment
unfolding san_segment
san_segment-split segment rest plain full =
    rw
      (
        san_segment,
        after_self "/api/san/" (String.◌++◌ segment ("/" ∷ rest)),
        before_slash-split segment rest plain,
        full,
      )
      refl

-- A path below /api/perf/ has no SAN in it.
san_segment-perf :
    (path : String) → is_some (after "/api/perf/" path) ≡ true → san_segment path ≡ none
unfolding san_segment clash
san_segment-perf path h =
    let missed = clash-after "/api/perf/" "/api/san/" path refl h in
    elim (Option-cases (after "/api/san/" path)) [
      | inl e ↦ rw (san_segment, e) refl
      | inr (t, e) ↦ absurd (ground arith)
    ]

-- How a request names a SAN to this middleware: by the part of its path that follows /api/san/ and
-- ends at the next slash, once it is decoded, or by its query, once, below /api/perf/.
abbrev pub Names : ApiRequest → String → Type 0
Names req id =
    ((segment : String) × (rest : String) × (req.path
        ≡ String.◌++◌ "/api/san/" (String.◌++◌ segment ("/" ∷ rest)))
      × (all_chars (λ c. not (c == b'/')) segment ≡ true)
      × (is_blank segment ≡ false)
      × (decode_uri_component segment ≡ some id))
    ⊎ ((rest : String) × (req.path ≡ String.◌++◌ "/api/perf/" rest)
        × (req.san_id_query ≡ single id))

-- A request with POST, PUT, PATCH or DELETE is refused with 403 if it names the id of a read-only SAN
-- in its path /api/san/<id>/..., where the id is URL-encoded and not empty, or if it is below
-- /api/perf/ and names the id once in its query.
pub san_readonly-refused :
    (sans : List SanRow) (req : ApiRequest) (id : String)
    → includes req.method changing_methods ≡ true
    → Names req id
    → is_blank id ≡ false
    → IsLocked sans id
    → san_readonly sans req ≡ refused 403 readonly_error
unfolding san_readonly
san_readonly-refused sans req id change (inl (segment, rest, path, plain, some_text, decoded)) full
      locked =
    rw
      (
        is_read_method-changing req.method change,
        path,
        san_segment-split segment rest plain some_text,
        block_segment,
        decoded,
      )
      (find_san-blocks sans id full locked)
san_readonly-refused sans req id change (inr (rest, path, query)) full locked =
    let below : is_some (after "/api/perf/" req.path) ≡ true =
      rw (path, after_self "/api/perf/" rest) refl in
    rw
      (
        is_read_method-changing req.method change,
        san_segment-perf req.path below,
        below,
        query,
        block_query,
      )
      (find_san-blocks sans id full locked)
