-- ===== src/PriceFeed/Histories/Authority.antt =====
-- Who may change what of the price feed, and what the price of a chain is after a change.
use mathlib.Core.Path.{subst}
use lz_v2_audit.Prelude.{
  ℕ, ◌≤◌, ◌≡◌, ◌≢◌, refl, sym, Option, none, some, List, Bool, true, false, contains, length, leb,
  ◌==◌, Result, ok, err, require, fresh, fresh-eq-ok, ◌∙◌, >>=-eq-ok, ok-injective, if◌then◌else◌,
  SortedListError, sorted_list,
}
use lz_v2_audit.SortedList.{get_from_sorted_list_by_eid}
use lz_v2_audit.SortedList.Reference.{IsSorted}
use lz_v2_audit.SortedList.Insert.{insert_or_update_lem, remove_lem}
use lz_v2_audit.PriceFeed.{
  Price, eid_of, PriceFeedAccount, PriceParams, updaters_max_len, set_price_in, max_len_of,
  init_price_feed, extend_price_feed, set_price_feed, transfer_admin, set_price, set_sol_price,
}
use lz_v2_audit.PriceFeed.Histories.{
  Action, init_action, extend_action, set_feed_action, transfer_action, set_price_action,
  set_sol_action, IsPriceFeed, by_admin, by_updater,
}

-- The parts of the account that only its admin changes, and those that only an updater changes.
pub record IsSameSettings (a b : PriceFeedAccount) : Type 0 where
  pub admin : b.data_of.admin ≡ a.data_of.admin
  pub updaters : b.data_of.updaters ≡ a.data_of.updaters
  pub denominator : b.data_of.price_ratio_denominator ≡ a.data_of.price_ratio_denominator
  pub extended : b.extended ≡ a.extended

pub record IsSamePrices (a b : PriceFeedAccount) : Type 0 where
  pub prices : b.data_of.prices ≡ a.data_of.prices
  pub usd : b.data_of.native_token_price_usd ≡ a.data_of.native_token_price_usd

same_settings : (a : PriceFeedAccount) → IsSameSettings a a
same_settings a = record { admin = refl; updaters = refl; denominator = refl; extended = refl }

same_prices : (a : PriceFeedAccount) → IsSamePrices a a
same_prices a = record { prices = refl; usd = refl }

-- What an instruction signed by `signer` leaves.
Kept : (signer : ℕ) (a b : PriceFeedAccount) → Type 0
Kept signer a b =
    ((a.data_of.admin ≢ signer) → IsSameSettings a b)
    × ((contains signer a.data_of.updaters ≡ false) → IsSamePrices a b)

-- By the admin, with the prices as they were.
of_admin :
    (signer : ℕ) (feed a b : PriceFeedAccount)
    → some a ≡ some feed
    → feed.data_of.admin ≡ signer
    → IsSamePrices feed b
    → Kept signer a b
unfolding Kept
of_admin signer feed a b e same prices =
    let same_a : a ≡ feed = cc in
    subst (λ x. Kept signer x b) (sym same_a) ((λ other. absurd (other same)), (λ unknown. prices))

of_updater :
    (signer : ℕ) (feed a b : PriceFeedAccount)
    → some a ≡ some feed
    → contains signer feed.data_of.updaters ≡ true
    → IsSameSettings feed b
    → Kept signer a b
unfolding Kept
of_updater signer feed a b e known settings =
    let same_a : a ≡ feed = cc in
    subst (λ x. Kept signer x b) (sym same_a) ((λ other. settings), (λ unknown. cc))

some≢none : (a : PriceFeedAccount) → some a ≢ none
some≢none a e = cc

some-injective : {a b : PriceFeedAccount} → some a ≡ some b → a ≡ b
some-injective e = cc

authorised :
    (signer : ℕ) (o : Option PriceFeedAccount) (a b : PriceFeedAccount)
    → Action signer o b
    → o ≡ some a
    → Kept signer a b
unfolding init_price_feed extend_price_feed set_price_feed transfer_admin set_price set_sol_price
    Kept
authorised signer o a b (init_action bump admin updaters h) e0 =
    let (u1, e1, h1) = >>=-eq-ok (fresh o) _ h in absurd (some≢none a (sym e0 ∙ fresh-eq-ok o e1))
authorised signer o a b (extend_action h) e0 =
    let (feed, e, same, h1) = by_admin signer o _ h in
    let result = ok-injective h1 in
    of_admin signer feed a b (sym e0 ∙ e) same
      (subst (IsSamePrices feed) result (record { prices = refl; usd = refl }))
authorised signer o a b (set_feed_action params h) e0 =
    let (feed, e, same, h1) = by_admin signer o _ h in
    let (u2, e2, h2) = >>=-eq-ok (require (leb (length params.updaters) updaters_max_len) _) _ h1 in
    let result = ok-injective h2 in
    of_admin signer feed a b (sym e0 ∙ e) same
      (subst (IsSamePrices feed) result (record { prices = refl; usd = refl }))
authorised signer o a b (transfer_action new_admin h) e0 =
    let (feed, e, same, h1) = by_admin signer o _ h in
    let result = ok-injective h1 in
    of_admin signer feed a b (sym e0 ∙ e) same
      (subst (IsSamePrices feed) result (record { prices = refl; usd = refl }))
authorised signer o a b (set_price_action dst_eid params h) e0 =
    let (feed, e, known, h1) = by_updater signer o _ h in
    let (prices, e2, h2) =
      >>=-eq-ok (set_price_in dst_eid params feed.extended feed.data_of.prices) _ h1 in
    let result = ok-injective h2 in
    of_updater signer feed a b (sym e0 ∙ e) known (
      subst (IsSameSettings feed) result
        (record { admin = refl; updaters = refl; denominator = refl; extended = refl }))
authorised signer o a b (set_sol_action price h) e0 =
    let (feed, e, known, h1) = by_updater signer o _ h in
    let result = ok-injective h1 in
    of_updater signer feed a b (sym e0 ∙ e) known (
      subst (IsSameSettings feed) result
        (record { admin = refl; updaters = refl; denominator = refl; extended = refl }))

-- No instruction on the initialised account changes its admin, its updaters, its denominator or its
-- size unless the admin signs it, and none changes a price or the price of the native token unless
-- an updater signs it.
pub only_authorised :
    (signer : ℕ) (a b : PriceFeedAccount)
    → Action signer (some a) b
    → ((a.data_of.admin ≢ signer) → IsSameSettings a b)
      × ((contains signer a.data_of.updaters ≡ false) → IsSamePrices a b)
unfolding Kept
only_authorised signer a b action = authorised signer (some a) a b action refl

-- The answer for a chain whose price is set to the parameters, or removed.
abbrev pub answer : (dst_eid : ℕ) → Option PriceParams → Result Price
answer dst_eid none = err (sorted_list SortedListError.not_found)
answer dst_eid (some params) = ok (record {
  eid = dst_eid;
  price_ratio = params.price_ratio;
  gas_price_in_unit = params.gas_price_in_unit;
  gas_per_byte = params.gas_per_byte;
  model_type = params.model_type;
})

-- What `set_price` does to the answers of the sorted prices.
answers :
    (dst_eid : ℕ) (params : Option PriceParams) (extended : Bool) (prices prices' : List Price)
    → IsSorted eid_of prices
    → length prices ≤ max_len_of extended
    → set_price_in dst_eid params extended prices ≡ ok prices'
    → (eid : ℕ)
    → get_from_sorted_list_by_eid eid_of prices' eid ≡ (
        if dst_eid == eid
        then answer dst_eid params
        else get_from_sorted_list_by_eid eid_of prices eid)
unfolding set_price_in
answers dst_eid (some params) extended prices prices' s l h eid =
    (insert_or_update_lem eid_of prices _ (max_len_of extended) prices' s l h).2 eid
answers dst_eid none extended prices prices' s l h eid =
    (remove_lem eid_of prices dst_eid prices' s h).1 eid

set_price_from :
    (updater dst_eid : ℕ) (params : Option PriceParams) (o : Option PriceFeedAccount)
    (a b : PriceFeedAccount)
    → IsPriceFeed a
    → set_price updater dst_eid params o ≡ ok b
    → o ≡ some a
    → (eid : ℕ)
    → get_from_sorted_list_by_eid eid_of b.data_of.prices eid ≡ (
        if dst_eid == eid
        then answer dst_eid params
        else get_from_sorted_list_by_eid eid_of a.data_of.prices eid)
unfolding set_price
set_price_from updater dst_eid params o a b v h e0 eid =
    let (feed, e, known, h1) = by_updater updater o _ h in
    let (prices, e2, h2) =
      >>=-eq-ok (set_price_in dst_eid params feed.extended feed.data_of.prices) _ h1 in
    let result = ok-injective h2 in
    let same : a ≡ feed = some-injective (sym e0 ∙ e) in
    let w : IsPriceFeed feed = subst IsPriceFeed same v in
    rw (same, ← result)
      (answers dst_eid params feed.extended feed.data_of.prices prices w.sorted w.bounded e2 eid)

-- After a successful `set_price` on a well-formed account the price of the given chain is the one
-- given, or not found if none was given, and the price of every other chain is what it was.
pub set_price_lem :
    (updater dst_eid : ℕ) (params : Option PriceParams) (a b : PriceFeedAccount)
    → IsPriceFeed a
    → set_price updater dst_eid params (some a) ≡ ok b
    → (eid : ℕ)
    → get_from_sorted_list_by_eid eid_of b.data_of.prices eid ≡ (
        if dst_eid == eid
        then answer dst_eid params
        else get_from_sorted_list_by_eid eid_of a.data_of.prices eid)
set_price_lem updater dst_eid params a b v h eid =
    set_price_from updater dst_eid params (some a) a b v h refl eid
