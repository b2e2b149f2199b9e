-- ===== src/Wire/Version/Order.antt =====
-- `compare_versions` is an order on the versions that it can read.
use Prim.Native.Nat.{Ordering}
use mathlib.Core.Path.{subst}
use m5stack_pc_remote.Base.{◌<◌, ◌≡◌, refl, ◌↔◌, ◌⊎◌, Option, none, some, arith}
use m5stack_pc_remote.Base.Text.{Text, eqb_comm}
use m5stack_pc_remote.Wire.Version.{
  VersionOrder, newer, same_version, older, unknown, Parts, split_version, compare_parts, order_of,
  compare_versions,
}

-- The lexicographic order of the three numbers.
abbrev IsBelow : Parts → Parts → Type 0
IsBelow a b =
    (a.major < b.major)
    ⊎ ((a.major ≡ b.major) × ((a.minor < b.minor) ⊎ ((a.minor ≡ b.minor) × (a.patch < b.patch))))

compare_parts-lt : (a b : Parts) → (compare_parts a b ≡ Ordering.lt) ↔ IsBelow a b
unfolding compare_parts
compare_parts-lt a b = (λ h. ground arith, λ h. ground arith)

compare_parts-gt : (a b : Parts) → (compare_parts a b ≡ Ordering.gt) ↔ IsBelow b a
unfolding compare_parts
compare_parts-gt a b = (λ h. ground arith, λ h. ground arith)

compare_parts-eq : (a b : Parts) → (compare_parts a b ≡ Ordering.eq) ↔ (a ≡ b)
unfolding compare_parts
compare_parts-eq a b = (λ h. ground arith, λ h. ground arith)

-- Two version texts that can be read, of which the first has the smaller numbers.
pub record IsNewer (current offered : Text) : Type 0 where
  pub cur : Parts
  pub cur_suffix : Text
  pub off : Parts
  pub off_suffix : Text
  pub cur_reads : split_version current ≡ some (cur, cur_suffix)
  pub off_reads : split_version offered ≡ some (off, off_suffix)
  pub below : IsBelow cur off

abbrev pub swapped : VersionOrder → VersionOrder
swapped newer = older
swapped same_version = same_version
swapped older = newer
swapped unknown = unknown

compare_parts-swapped :
    (a b : Parts)
    → compare_parts b a ≡ elim (compare_parts a b) [
      | Ordering.lt ↦ Ordering.gt
      | Ordering.gt ↦ Ordering.lt
      | Ordering.eq ↦ Ordering.eq
    ]
unfolding compare_parts
compare_parts-swapped a b = ground arith

order_of-swapped : (x y : Option (Parts × Text)) → order_of y x ≡ swapped (order_of x y)
unfolding order_of
order_of-swapped none none = refl
order_of-swapped none (some (b, t)) = refl
order_of-swapped (some (a, s)) none = refl
order_of-swapped (some (a, s)) (some (b, t)) =
    ground (arith, compare_parts-swapped a b, eqb_comm s t)

-- Exchanging the two versions exchanges `newer` and `older`, and keeps `same_version` and
-- `unknown`.
pub compare_versions-swapped : (a b : Text) → compare_versions b a ≡ swapped (compare_versions a b)
unfolding compare_versions
compare_versions-swapped a b = order_of-swapped (split_version a) (split_version b)

order_of-newer :
    (a b : Parts) (s t : Text) → (order_of (some (a, s)) (some (b, t)) ≡ newer) ↔ IsBelow a b
unfolding order_of
order_of-newer a b s t =
    (λ h. (compare_parts-lt a b).0 (ground arith), λ h. ground (arith, (compare_parts-lt a b).1 h))

newer_reads :
    (current offered : Text) (x y : Option (Parts × Text))
    → split_version current ≡ x
    → split_version offered ≡ y
    → order_of x y ≡ newer
    → IsNewer current offered
unfolding order_of
newer_reads current offered none none p q h = cc
newer_reads current offered none (some (b, t)) p q h = cc
newer_reads current offered (some (a, s)) none p q h = cc
newer_reads current offered (some (a, s)) (some (b, t)) p q h = record {
  cur = a;
  cur_suffix = s;
  off = b;
  off_suffix = t;
  cur_reads = p;
  off_reads = q;
  below = (order_of-newer a b s t).0 h;
}

-- The offered version counts as newer exactly if both versions can be read and its three numbers
-- come later in the lexicographic order of numbers, whatever the suffixes.
pub compare_versions_newer_iff :
    (current offered : Text) → (compare_versions current offered ≡ newer) ↔ IsNewer current offered
unfolding compare_versions
compare_versions_newer_iff current offered = (
  newer_reads current offered (split_version current) (split_version offered) refl refl,
  λ n.
      rw (n.cur_reads, n.off_reads)
        ((order_of-newer n.cur n.off n.cur_suffix n.off_suffix).1 n.below),
)

IsBelow-trans : (a b c : Parts) → IsBelow a b → IsBelow b c → IsBelow a c
IsBelow-trans a b c h k = ground arith

-- Being newer is transitive: a chain of updates never offers a version that is older than, or the
-- same as, an earlier one of the chain.
pub newer_trans :
    (a b c : Text)
    → compare_versions a b ≡ newer
    → compare_versions b c ≡ newer
    → compare_versions a c ≡ newer
newer_trans a b c h k =
    let m = (compare_versions_newer_iff a b).0 h in
    let n = (compare_versions_newer_iff b c).0 k in
    let middle : (m.off ≡ n.cur) = cc (m.off_reads, n.cur_reads) in
    (compare_versions_newer_iff a c).1 (record {
      cur = m.cur;
      cur_suffix = m.cur_suffix;
      off = n.off;
      off_suffix = n.off_suffix;
      cur_reads = m.cur_reads;
      off_reads = n.off_reads;
      below = IsBelow-trans m.cur n.cur n.off (subst (λ p. IsBelow m.cur p) middle m.below) n.below;
    })
