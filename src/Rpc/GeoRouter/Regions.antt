-- ===== src/Rpc/GeoRouter/Regions.antt =====
-- chainrpc-core/src/geo_routing.rs, `Region`. `to_lowercase` of the standard library is an argument.
use chainkit.Prelude.{
  Bool, List, PartialEq, Result, String, [], ap, concat, err, get_or, if◌then◌else◌, ok, refl, sym,
  true, ℕ, ◌==◌, ◌||◌, ◌↔◌, ◌∙◌, ◌∷◌, ◌≡◌, nat_eq, string_eq, pair_eq,
}

pub data Region : Type 0 where
  us_east us_west eu_west eu_central asia_southeast asia_east south_america oceania : Region

unfoldable pub as_str : Region → String
as_str us_east = "us-east"
as_str us_west = "us-west"
as_str eu_west = "eu-west"
as_str eu_central = "eu-central"
as_str asia_southeast = "asia-southeast"
as_str asia_east = "asia-east"
as_str south_america = "south-america"
as_str oceania = "oceania"

unfoldable pub proximity_order : Region → List Region
proximity_order us_east =
    us_west ∷ eu_west ∷ south_america ∷ eu_central ∷ asia_southeast ∷ asia_east ∷ oceania ∷ []
proximity_order us_west =
    us_east ∷ asia_east ∷ asia_southeast ∷ oceania ∷ south_america ∷ eu_west ∷ eu_central ∷ []
proximity_order eu_west =
    eu_central ∷ us_east ∷ south_america ∷ asia_southeast ∷ us_west ∷ asia_east ∷ oceania ∷ []
proximity_order eu_central =
    eu_west ∷ asia_southeast ∷ us_east ∷ asia_east ∷ south_america ∷ us_west ∷ oceania ∷ []
proximity_order asia_southeast =
    asia_east ∷ oceania ∷ eu_central ∷ eu_west ∷ us_west ∷ us_east ∷ south_america ∷ []
proximity_order asia_east =
    asia_southeast ∷ oceania ∷ us_west ∷ eu_central ∷ eu_west ∷ us_east ∷ south_america ∷ []
proximity_order south_america =
    us_east ∷ us_west ∷ eu_west ∷ eu_central ∷ asia_southeast ∷ asia_east ∷ oceania ∷ []
proximity_order oceania =
    asia_southeast ∷ asia_east ∷ us_west ∷ eu_central ∷ eu_west ∷ us_east ∷ south_america ∷ []

unfoldable pub all_regions : List Region
all_regions =
    us_east ∷ us_west ∷ eu_west ∷ eu_central ∷ asia_southeast ∷ asia_east ∷ south_america ∷ oceania
    ∷ []

-- the place of a region in its declaration
abbrev pub index : Region → ℕ
index us_east = 0
index us_west = 1
index eu_west = 2
index eu_central = 3
index asia_southeast = 4
index asia_east = 5
index south_america = 6
index oceania = 7

abbrev region_at : ℕ → Region
region_at n =
    get_or
      (us_east ∷ us_west ∷ eu_west ∷ eu_central ∷ asia_southeast ∷ asia_east ∷ south_america ∷ []) n
      oceania

region_at-index : (r : Region) → region_at (index r) ≡ r
region_at-index us_east = refl
region_at-index us_west = refl
region_at-index eu_west = refl
region_at-index eu_central = refl
region_at-index asia_southeast = refl
region_at-index asia_east = refl
region_at-index south_america = refl
region_at-index oceania = refl

abbrev pub same_region : Region → Region → Bool
same_region r s = index r == index s

pub same_region_iff : (r s : Region) → (same_region r s ≡ true) ↔ (r ≡ s)
same_region_iff r s = (
  λ h.
      sym (region_at-index r)
      ∙ ap region_at ((nat_eq.same_iff (index r) (index s)).0 h)
      ∙ region_at-index s,
  λ p. (nat_eq.same_iff (index r) (index s)).1 (ap index p),
)

instance abbrev pub region_eq : PartialEq Region
region_eq = record { same_iff = same_region_iff; same = same_region }

-- whether a text is one of three
abbrev one_of : String → String → String → String → Bool
one_of s a b c = s == a || s == b || s == c

-- `from_str`, whose error holds the text that was given
unfoldable pub from_str : (String → String) → String → Result Region String
from_str lower s =
    let low = lower s in
    if one_of low "us-east" "us_east" "useast"
    then ok us_east
    else if one_of low "us-west" "us_west" "uswest"
    then ok us_west
    else if one_of low "eu-west" "eu_west" "euwest"
    then ok eu_west
    else if one_of low "eu-central" "eu_central" "eucentral"
    then ok eu_central
    else if one_of low "asia-southeast" "asia_southeast" "asiasoutheast"
    then ok asia_southeast
    else if one_of low "asia-east" "asia_east" "asiaeast"
    then ok asia_east
    else if one_of low "south-america" "south_america" "southamerica"
    then ok south_america
    else if low == "oceania"
    then ok oceania
    else err (concat "unknown region: " s)

-- A region is read back from any text that its own text is the lower case of.
from_str-as_str :
    (lower : String → String) (r : Region) (s : String)
    → lower s ≡ as_str r
    → from_str lower s ≡ ok r
unfolding from_str as_str
from_str-as_str lower us_east s h = rw h
from_str-as_str lower us_west s h = rw h
from_str-as_str lower eu_west s h = rw h
from_str-as_str lower eu_central s h = rw h
from_str-as_str lower asia_southeast s h = rw h
from_str-as_str lower asia_east s h = rw h
from_str-as_str lower south_america s h = rw h
from_str-as_str lower oceania s h = rw h
