-- ===== src/Nexus/Io/Named.antt =====
-- bdev/nexus/nexus_channel.rs: the devices that are writers or that the nexus was asked to retire.
use mayastor.Common.{List, [], ◌∷◌, ◌++◌, Bool, true, false, ◌||◌, ◌≡◌, refl}
use mayastor.Common.Text.{Text, same_text}
use mayastor.Nexus.Io.{RetireReason, mem, remove_first}
use mayastor.Nexus.Io.Devices.{or_true, or_false, mem-remove_first}

-- The devices that the nexus was asked to retire.
unfoldable pub names : List (Text × RetireReason) → List Text
names [] = []
names (r ∷ rs) = r.0 ∷ names rs

-- A device is a writer, or the nexus was asked to retire it.
unfoldable pub Kept : Text → List Text → List (Text × RetireReason) → Type 0
Kept x writers retired = (mem x writers || mem x (names retired)) ≡ true

or_assoc : (a b c : Bool) → (a || (b || c)) ≡ (a || b || c)
or_assoc true b c = refl
or_assoc false b c = refl

or_over : (a b c : Bool) → (a || b) ≡ true → (a || (b || c)) ≡ true
or_over true b c h = refl
or_over false true c h = refl
or_over false false c h = cc

or_move : (a b c : Bool) → (c || a) ≡ true → (a || (b || c)) ≡ true
or_move true b c h = refl
or_move false true c h = refl
or_move false false true h = refl
or_move false false false h = cc

or_moved :
    (a a' b c : Bool) → (a ≡ true → (c || a') ≡ true) → (a || b) ≡ true → (a' || (b || c)) ≡ true
or_moved true a' b c m h = or_move a' b c (m refl)
or_moved false a' true c m h = or_true a'
or_moved false a' false c m h = cc

mem-names :
    (x d : Text) (reason : RetireReason) (rs : List (Text × RetireReason))
    → mem x (names (rs ++ (d, reason) ∷ [])) ≡ (mem x (names rs) || same_text d x)
unfolding mem names
mem-names x d reason [] = or_false (same_text d x)
mem-names x d reason (r ∷ rs) =
    rw (mem-names x d reason rs) (or_assoc (same_text r.0 x) (mem x (names rs)) (same_text d x))

pub names_more :
    (x d : Text) (reason : RetireReason) (ws : List Text) (rs : List (Text × RetireReason))
    → Kept x ws rs
    → Kept x ws (rs ++ (d, reason) ∷ [])
unfolding Kept
names_more x d reason ws rs h = rw (mem-names x d reason rs) (or_over (mem x ws) _ _ h)

pub names_removed :
    (x d : Text) (reason : RetireReason) (ws : List Text) (rs : List (Text × RetireReason))
    → Kept x ws rs
    → Kept x (remove_first d ws) (rs ++ (d, reason) ∷ [])
unfolding Kept
names_removed x d reason ws rs h = rw (mem-names x d reason rs) (
    or_moved (mem x ws) (mem x (remove_first d ws)) (mem x (names rs)) (same_text d x)
      (mem-remove_first d x ws) h)
