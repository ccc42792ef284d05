-- ===== src/PriceFeed/Histories.antt =====
-- The instructions of the price feed that write its account, their histories, and who may change
-- what.
pub mod Authority
use mathlib.Core.Path.{subst}
use lz_v2_audit.Prelude.{
  ℕ, ◌≤◌, ◌≡◌, ◌≢◌, refl, sym, ap, Option, none, some, List, [], Bool, true, false, contains,
  length, leb, leb→le, ◌==◌, ==→eq, ◌&&◌, Result, ok, err, require, account, fresh, >>=-eq-ok,
  require-eq-ok, guarded, ◌>>=◌, ◌>>◌, ok-injective, arith, if◌then◌else◌, PriceFeedError,
  price_feed, AnchorError, anchor, SortedListError, sorted_list,
}
use lz_v2_audit.SortedList.{get_from_sorted_list_by_eid}
use lz_v2_audit.SortedList.Reference.{IsSorted, drop-IsSorted}
use lz_v2_audit.SortedList.Insert.{insert_or_update_lem, remove_lem, length-remove}
use lz_v2_audit.PriceFeed.{
  Price, eid_of, PriceFeed, PriceFeedAccount, PriceParams, SetPriceFeedParams, updaters_max_len,
  max_len_of, init_price_feed, extend_price_feed, set_price_feed, transfer_admin, set_price_in,
  set_price, set_sol_price,
}

-- One instruction, with its signer.
pub data Action (signer : ℕ) (a : Option PriceFeedAccount) (b : PriceFeedAccount) : Type 0 where
  init_action :
      (bump admin : ℕ) (updaters : List ℕ)
      → init_price_feed bump admin updaters a ≡ ok b
      → Action signer a b
  extend_action : extend_price_feed signer a ≡ ok b → Action signer a b
  set_feed_action :
      (params : SetPriceFeedParams) → set_price_feed signer params a ≡ ok b → Action signer a b
  transfer_action : (new_admin : ℕ) → transfer_admin signer new_admin a ≡ ok b → Action signer a b
  set_price_action :
      (dst_eid : ℕ) (params : Option PriceParams)
      → set_price signer dst_eid params a ≡ ok b
      → Action signer a b
  set_sol_action :
      (native_token_price_usd : Option ℕ)
      → set_sol_price signer native_token_price_usd a ≡ ok b
      → Action signer a b

pub data History : Option PriceFeedAccount → Type 0 where
  start : History none
  then_action :
      {a : Option PriceFeedAccount} {b : PriceFeedAccount}
      → History a
      → (signer : ℕ) → Action signer a b
      → History (some b)

-- Sorted prices within the account's size, and few updaters.
pub record IsPriceFeed (a : PriceFeedAccount) : Type 0 where
  pub sorted : IsSorted eid_of a.data_of.prices
  pub bounded : length a.data_of.prices ≤ max_len_of a.extended
  pub few_updaters : length a.data_of.updaters ≤ updaters_max_len

abbrev pub IsStored : Option PriceFeedAccount → Type 0
IsStored none = Unit
IsStored (some a) = IsPriceFeed a

-- The gates of the instructions: the account, opened for its admin or for an updater.
pub by_admin :
    (admin : ℕ) (a : Option PriceFeedAccount) (then_do : PriceFeedAccount → Result PriceFeedAccount)
    {b : PriceFeedAccount}
    → (account a >>= λ feed.
        require (feed.data_of.admin == admin) (anchor AnchorError.constraint_has_one)
        >> then_do feed)
      ≡ ok b
    → (feed : PriceFeedAccount) × (a ≡ some feed)
      × (feed.data_of.admin ≡ admin)
      × (then_do feed ≡ ok b)
by_admin admin a then_do h =
    let (feed, e, test, h1) = guarded a (λ feed. feed.data_of.admin == admin) _ then_do h in
    (feed, e, ==→eq _ _ test, h1)

pub by_updater :
    (updater : ℕ) (a : Option PriceFeedAccount)
    (then_do : PriceFeedAccount → Result PriceFeedAccount) {b : PriceFeedAccount}
    → (account a >>= λ feed.
        require (contains updater feed.data_of.updaters) (price_feed PriceFeedError.invalid_updater)
        >> then_do feed)
      ≡ ok b
    → (feed : PriceFeedAccount) × (a ≡ some feed)
      × (contains updater feed.data_of.updaters ≡ true)
      × (then_do feed ≡ ok b)
by_updater updater a then_do h =
    guarded a (λ feed. contains updater feed.data_of.updaters) _ then_do h

longer : (extended : Bool) (n : ℕ) → n ≤ max_len_of extended → n ≤ max_len_of true
longer true n h = h
longer false n h = omega arith

-- What a successful `set_price` leaves of the prices.
pub set_price_in_lem :
    (dst_eid : ℕ) (params : Option PriceParams) (extended : Bool) (prices prices' : List Price)
    → IsSorted eid_of prices
    → length prices ≤ max_len_of extended
    → set_price_in dst_eid params extended prices ≡ ok prices'
    → IsSorted eid_of prices' × (length prices' ≤ max_len_of extended)
unfolding set_price_in
set_price_in_lem dst_eid (some params) extended prices prices' s l h =
    let (s', l', g) = insert_or_update_lem eid_of prices _ (max_len_of extended) prices' s l h in
    (s', l')
set_price_in_lem dst_eid none extended prices prices' s l h =
    let (s', g) = remove_lem eid_of prices dst_eid prices' s h in
    (s', omega (arith, length-remove eid_of prices dst_eid prices' s h))

Action-IsPriceFeed :
    (signer : ℕ) (a : Option PriceFeedAccount) (b : PriceFeedAccount)
    → IsStored a
    → Action signer a b
    → IsPriceFeed b
unfolding init_price_feed extend_price_feed set_price_feed transfer_admin set_price set_sol_price
Action-IsPriceFeed signer a b v (init_action bump admin updaters h) =
    let (u1, e1, h1) = >>=-eq-ok (fresh a) _ h in
    let (u2, e2, h2) = >>=-eq-ok (require (leb (length updaters) updaters_max_len) _) _ h1 in
    subst IsPriceFeed (ok-injective h2) (record {
      sorted = tt;
      bounded = omega arith;
      few_updaters = leb→le _ _ (require-eq-ok _ _ e2);
    })
Action-IsPriceFeed signer a b v (extend_action h) =
    let (feed, e, same, h1) = by_admin signer a _ h in
    let w : IsPriceFeed feed = rw e at v in
    subst IsPriceFeed (ok-injective h1) (record {
      sorted = w.sorted;
      bounded = longer feed.extended _ w.bounded;
      few_updaters = w.few_updaters;
    })
Action-IsPriceFeed signer a b v (set_feed_action params h) =
    let (feed, e, same, h1) = by_admin signer a _ h in
    let (u2, e2, h2) = >>=-eq-ok (require (leb (length params.updaters) updaters_max_len) _) _ h1 in
    let w : IsPriceFeed feed = rw e at v in
    subst IsPriceFeed (ok-injective h2) (record {
      sorted = w.sorted;
      bounded = w.bounded;
      few_updaters = leb→le _ _ (require-eq-ok _ _ e2);
    })
Action-IsPriceFeed signer a b v (transfer_action new_admin h) =
    let (feed, e, same, h1) = by_admin signer a _ h in
    let w : IsPriceFeed feed = rw e at v in
    subst IsPriceFeed (ok-injective h1)
      (record { sorted = w.sorted; bounded = w.bounded; few_updaters = w.few_updaters })
Action-IsPriceFeed signer a b v (set_price_action dst_eid params h) =
    let (feed, e, known, h1) = by_updater signer a _ h in
    let (prices, e2, h2) =
      >>=-eq-ok (set_price_in dst_eid params feed.extended feed.data_of.prices) _ h1 in
    let w : IsPriceFeed feed = rw e at v in
    let (s, l) =
      set_price_in_lem dst_eid params feed.extended feed.data_of.prices prices w.sorted w.bounded
        e2 in
    subst IsPriceFeed (ok-injective h2)
      (record { sorted = s; bounded = l; few_updaters = w.few_updaters })
Action-IsPriceFeed signer a b v (set_sol_action price h) =
    let (feed, e, known, h1) = by_updater signer a _ h in
    let w : IsPriceFeed feed = rw e at v in
    subst IsPriceFeed (ok-injective h1)
      (record { sorted = w.sorted; bounded = w.bounded; few_updaters = w.few_updaters })

-- Whatever instructions have run since the price feed was deployed, its prices are sorted by their
-- endpoint ids with none twice, at most 140 of them, or 340 once the account has been extended, and
-- it has at most 8 updaters.
pub reachable-IsPriceFeed : (a : Option PriceFeedAccount) → History a → IsStored a
reachable-IsPriceFeed none start = tt
reachable-IsPriceFeed (some b) (then_action {a = a} h signer action) =
    Action-IsPriceFeed signer a b (reachable-IsPriceFeed a h) action
