-- ===== src/Wallet/Offers.antt =====
-- When the wallet counts as connected, and what the user is offered in each state.
use text.Mathlib.TextEquality.{eq_iff}
use elite_work.Base.{◌≡◌, ◌≢◌, ◌↔◌, ◌⊎◌, refl, String, true, false, Option, none, some, arith}
use elite_work.Wallet.{
  WalletState, WalletProbe, connected, is_elsewhere, derive_wallet_state, state_without_error,
  describe_wallet_state, is_blocked, idle, detecting, absent, locked, connecting, rejected,
  wrong_network, timeout, error,
}

-- The extension reports no network, an empty one, or the one that the application needs.
abbrev pub IsOnNetwork : Option String → (expected : String) → Type 0
IsOnNetwork none expected = Unit
IsOnNetwork (some network) expected = (network ≡ "") ⊎ (network ≡ expected)

IsOnNetwork-iff :
    (network : Option String) (expected : String)
    → (is_elsewhere network expected ≡ false) ↔ IsOnNetwork network expected
unfolding is_elsewhere
IsOnNetwork-iff none expected = (λ h. tt, λ h. refl)
IsOnNetwork-iff (some network) expected = ground (arith, eq_iff network "", eq_iff network expected)

-- The wallet counts as connected exactly when no request is waiting, no error was met, the extension
-- is there and allows the application, it gave an address, and it is on no other network.
pub derive_wallet_state-connected_iff :
    (probe : WalletProbe)
    → (derive_wallet_state probe ≡ connected) ↔ (
        (probe.connecting ≡ false)
        × (probe.error ≡ none)
        × (probe.detected ≡ true)
        × (probe.allowed ≡ true)
        × (probe.has_address ≡ true)
        × IsOnNetwork probe.network probe.expected_network)
unfolding derive_wallet_state state_without_error
derive_wallet_state-connected_iff probe =
    ground (arith, IsOnNetwork-iff probe.network probe.expected_network)

-- In every state the view is that state's own, a label comes with an action and only with one, and a
-- blocked state always offers an action.
describe_wallet_state-offers :
    (t : String → String) (t_expected : (key expected : String) → String) (state : WalletState)
    (ctx : Option String)
    → let view = describe_wallet_state t t_expected state ctx in
      (view.state ≡ state)
      × ((view.cta_label ≡ none) ↔ (view.action ≡ none))
      × ((view.action ≡ none) ↔ ((state ≡ connecting) ⊎ (state ≡ connected)))
      × (is_blocked state ≡ true → view.action ≢ none)
unfolding describe_wallet_state is_blocked
describe_wallet_state-offers t t_expected idle ctx = ground arith
describe_wallet_state-offers t t_expected detecting ctx = ground arith
describe_wallet_state-offers t t_expected absent ctx = ground arith
describe_wallet_state-offers t t_expected locked ctx = ground arith
describe_wallet_state-offers t t_expected connecting ctx = ground arith
describe_wallet_state-offers t t_expected rejected ctx = ground arith
describe_wallet_state-offers t t_expected wrong_network ctx = ground arith
describe_wallet_state-offers t t_expected connected ctx = ground arith
describe_wallet_state-offers t t_expected timeout ctx = ground arith
describe_wallet_state-offers t t_expected error ctx = ground arith
