-- ===== src/Policy.antt =====
-- internal/clients/rgwiam/policy.go: the policies of the users of a bucket. `marshal` and
-- `unmarshal` are those of encoding/json, and `sort_grants` is `sort.Slice` on the buckets, which is
-- not stable.
pub mod Level
pub mod Equal
mod Tests
use crossplane_provider_time.Prelude.{
  ℕ, Text, lit, List, [], ◌∷◌, ◌++◌, map, Option, none, some, Bool, true, false, ◌&&◌, ◌||◌,
  if◌then◌else◌, same, contains,
}
use crossplane_provider_time.Prelude.Sort.{sort_strings}

abbrev pub level_read : Text
level_read = lit "read"

abbrev pub level_read_write : Text
level_read_write = lit "read-write"

abbrev pub level_admin : Text
level_admin = lit "admin"

pub record Grant : Type 0 where
  pub bucket : Text
  pub level : Text

pub record Statement : Type 0 where
  pub sid : Text
  pub effect : Text
  pub action : List Text
  pub resource : List Text

pub record PolicyDoc : Type 0 where
  pub version : Text
  pub statement : List Statement

unfoldable pub arn : Text → Text
arn bucket = lit "arn:aws:s3:::" ++ bucket

unfoldable pub arn_objects : Text → Text
arn_objects bucket = lit "arn:aws:s3:::" ++ bucket ++ lit "/*"

unfoldable pub writes : Text → Bool
writes level = same level level_read_write || same level level_admin

unfoldable pub object_actions : Text → List Text
unfolding writes
object_actions level = if writes level then lit "s3:*" ∷ [] else lit "s3:Get*" ∷ lit "s3:List*" ∷ []

unfoldable pub bucket_actions : Text → List Text
bucket_actions level =
    if same level level_admin then lit "s3:*" ∷ [] else lit "s3:Get*" ∷ lit "s3:List*" ∷ []

-- The two statements of a grant, for the objects and for the bucket.
unfoldable pub object_statement : Grant → Statement
unfolding object_actions arn_objects writes
object_statement g = record {
  sid = if writes g.level then lit "AllowFullAccessToObjects" else lit "AllowReadObjectsInBucket";
  effect = lit "Allow";
  action = object_actions g.level;
  resource = arn_objects g.bucket ∷ [];
}

unfoldable pub bucket_statement : Grant → Statement
unfolding bucket_actions arn
bucket_statement g = record {
  sid =
      if same g.level level_admin
      then lit "AllowFullBucketAccess"
      else lit "AllowReadBucketMetadata";
  effect = lit "Allow";
  action = bucket_actions g.level;
  resource = arn g.bucket ∷ [];
}

abbrev pub base_statement : Statement
base_statement = record {
  sid = lit "IamListAllMyBuckets";
  effect = lit "Allow";
  action = lit "s3:ListAllMyBuckets" ∷ [];
  resource = lit "*" ∷ [];
}

unfoldable pub statements : List Grant → List Statement
unfolding object_statement bucket_statement
statements [] = []
statements (g ∷ gs) = object_statement g ∷ bucket_statement g ∷ statements gs

-- The document that `RenderPolicy` marshals.
unfoldable pub policy_doc : (List Grant → List Grant) → List Grant → PolicyDoc
unfolding statements
policy_doc sort_grants grants = record {
  version = lit "2012-10-17";
  statement = base_statement ∷ statements (sort_grants grants);
}

unfoldable pub render_policy :
    (PolicyDoc → Option Text) → (List Grant → List Grant) → List Grant → Option Text
unfolding policy_doc
render_policy marshal sort_grants grants = marshal (policy_doc sort_grants grants)

-- `strings.Join`
unfoldable pub join : Text → List Text → Text
join separator [] = []
join separator (s ∷ []) = s
join separator (s ∷ t ∷ l) = s ++ separator ++ join separator (t ∷ l)

-- The comparison of the lengths and then of the texts.
unfoldable pub same_texts : List Text → List Text → Bool
same_texts [] [] = true
same_texts (s ∷ l) (t ∷ m) = same s t && same_texts l m
same_texts _ _ = false

unfoldable pub same_canonical : Option (List Text) → Option (List Text) → Bool
same_canonical (some a) (some b) = same_texts a b
same_canonical _ _ = false

unfoldable pub policy_hash_of : (Text → Text) → Option (List Text) → Text
policy_hash_of hash none = []
policy_hash_of hash (some c) = hash (join (10 ∷ []) c)

module _ (lower : ℕ → ℕ) where
  unfoldable pub canonical_statement : Statement → Text
  unfolding join
  canonical_statement s =
      map lower s.effect
      ++ lit "|"
      ++ join (lit ",") (sort_strings s.action)
      ++ lit "|"
      ++ join (lit ",") (sort_strings s.resource)

  unfoldable pub canonical : PolicyDoc → List Text
  unfolding canonical_statement
  canonical p = sort_strings (map canonical_statement p.statement)

  unfoldable pub canonical_of : Option PolicyDoc → Option (List Text)
  unfolding canonical
  canonical_of none = none
  canonical_of (some p) = some (canonical p)

  unfoldable pub canonical_statements : (Text → Option PolicyDoc) → Text → Option (List Text)
  unfolding canonical_of
  canonical_statements unmarshal doc = canonical_of (unmarshal doc)

  unfoldable pub policies_equal : (Text → Option PolicyDoc) → Text → Text → Bool
  unfolding canonical_statements same_canonical
  policies_equal unmarshal a b =
      same_canonical (canonical_statements unmarshal a) (canonical_statements unmarshal b)

  -- `PolicyHash`; `hash` is SHA-256 in hexadecimal.
  unfoldable pub policy_hash : (Text → Text) → (Text → Option PolicyDoc) → Text → Text
  unfolding policy_hash_of canonical_statements
  policy_hash hash unmarshal doc = policy_hash_of hash (canonical_statements unmarshal doc)

-- What the loop of `DeriveLevelForBucket` found so far.
pub record Found : Type 0 where
  pub present : Bool
  pub obj_full : Bool
  pub bkt_full : Bool

abbrev pub nothing_found : Found
nothing_found = record { present = false; obj_full = false; bkt_full = false }

module _ (bucket : Text) where
  unfoldable pub read_statement : Statement → Found → Found
  unfolding arn arn_objects
  read_statement s f =
      let full = contains s.action (lit "s3:*") in
      let g =
        if contains s.resource (arn_objects bucket)
        then record f { present = true; obj_full = f.obj_full || full }
        else f in
      if contains s.resource (arn bucket)
      then record g { present = true; bkt_full = g.bkt_full || full }
      else g

  unfoldable pub read_statements : List Statement → Found → Found
  unfolding read_statement
  read_statements [] f = f
  read_statements (s ∷ l) f = read_statements l (read_statement s f)

-- The level and whether a grant is present.
unfoldable pub level_of : Found → Text × Bool
level_of f =
    if f.present
    then (if f.obj_full && f.bkt_full
        then (level_admin, true)
        else if f.obj_full
        then (level_read_write, true)
        else (level_read, true))
    else ([], false)

unfoldable pub derive_level_of : Option PolicyDoc → Text → Text × Bool
unfolding read_statements level_of
derive_level_of none bucket = ([], false)
derive_level_of (some p) bucket = level_of (read_statements bucket p.statement nothing_found)

unfoldable pub derive_level_for_bucket : (Text → Option PolicyDoc) → Text → Text → Text × Bool
unfolding derive_level_of
derive_level_for_bucket unmarshal doc bucket = derive_level_of (unmarshal doc) bucket
