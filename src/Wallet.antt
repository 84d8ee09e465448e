-- ===== src/Wallet.antt =====
-- frontend/src/lib/wallet/state-machine.ts: the state of the wallet connection, derived from what a
-- probe of the extension found, and what the user is offered in it. The translations are parameters.
-- The race of a call against its deadline and the telemetry are left out.
pub mod Offers
use text.Mathlib.Text.{◌==◌ as str_eq}
use elite_work.Base.{
  ◌≡◌, String, Bool, true, false, not, ◌&&◌, ◌||◌, Option, none, some, List, [], ◌∷◌,
}
use elite_work.Base.Tests.{if◌then◌else◌, get_or_else}
use elite_work.Base.Lists.{any}

pub data WalletState : Type 0 where
  idle detecting absent locked connecting rejected wrong_network connected timeout error :
      WalletState

unfoldable pub same_state : WalletState → WalletState → Bool
same_state idle idle = true
same_state detecting detecting = true
same_state absent absent = true
same_state locked locked = true
same_state connecting connecting = true
same_state rejected rejected = true
same_state wrong_network wrong_network = true
same_state connected connected = true
same_state timeout timeout = true
same_state error error = true
same_state _ _ = false

abbrev pub blocked_states : List WalletState
blocked_states = absent ∷ locked ∷ rejected ∷ wrong_network ∷ timeout ∷ error ∷ []

-- `BLOCKED_STATES.includes(state)`
unfoldable pub is_blocked : WalletState → Bool
unfolding same_state
is_blocked state = any (same_state state) blocked_states

pub data WalletProbeError : Type 0 where
  declined_error locked_error timeout_error unknown_error : WalletProbeError

pub record WalletProbe : Type 0 where
  pub detected : Bool
  pub allowed : Bool
  pub has_address : Bool
  pub network : Option String
  pub expected_network : String
  pub connecting : Bool
  pub error : Option WalletProbeError

-- `probe.network && probe.network !== probe.expectedNetwork`: the empty text is falsy.
unfoldable pub is_elsewhere : Option String → (expected : String) → Bool
is_elsewhere none expected = false
is_elsewhere (some network) expected = not (str_eq network "") && not (str_eq network expected)

-- The tests behind the `switch` on the error.
unfoldable pub state_without_error : WalletProbe → WalletState
unfolding is_elsewhere
state_without_error probe =
    if not probe.detected
    then absent
    else if probe.allowed && not probe.has_address
    then locked
    else if not probe.allowed || not probe.has_address
    then idle
    else if is_elsewhere probe.network probe.expected_network
    then wrong_network
    else connected

abbrev pub state_for_error : Option WalletProbeError → WalletProbe → WalletState
state_for_error (some declined_error) probe = rejected
state_for_error (some timeout_error) probe = timeout
state_for_error (some locked_error) probe = locked
state_for_error (some unknown_error) probe = error
state_for_error none probe = state_without_error probe

unfoldable pub derive_wallet_state : WalletProbe → WalletState
unfolding state_without_error
derive_wallet_state probe =
    if probe.connecting then connecting else state_for_error probe.error probe

pub data WalletAction : Type 0 where
  install unlock retry switch_network connect : WalletAction

pub record WalletStateView : Type 0 where
  pub state : WalletState
  pub title : String
  pub body : String
  pub cta_label : Option String
  pub action : Option WalletAction
  pub href : Option String

abbrev pub freighter_home : String
freighter_home = "https://www.freighter.app/"

module _ (t : String → String) (t_expected : (key expected : String) → String) where
  abbrev pub view :
      WalletState
      → (title body : String) → Option String
      → Option WalletAction
      → Option String
      → WalletStateView
  view state title body cta_label action href = record {
    state = state;
    title = title;
    body = body;
    cta_label = cta_label;
    action = action;
    href = href;
  }

  unfoldable pub describe_wallet_state :
      WalletState → (expected_network : Option String) → WalletStateView
  describe_wallet_state absent ctx =
      view absent (t "wallet.absentTitle") (t "wallet.absentBody") (some (t "wallet.absentCta"))
        (some install) (some freighter_home)
  describe_wallet_state locked ctx =
      view locked (t "wallet.lockedTitle") (t "wallet.lockedBody") (some (t "wallet.lockedCta"))
        (some unlock) (some freighter_home)
  describe_wallet_state rejected ctx =
      view rejected (t "wallet.rejectedTitle") (t "wallet.rejectedBody")
        (some (t "wallet.rejectedCta")) (some retry) none
  describe_wallet_state wrong_network ctx =
      let expected = get_or_else ctx "" in
      view wrong_network (t "wallet.wrongNetworkTitle")
        (t_expected "wallet.wrongNetworkBody" expected)
        (some (t_expected "wallet.wrongNetworkCta" expected)) (some switch_network) none
  describe_wallet_state timeout ctx =
      view timeout (t "wallet.timeoutTitle") (t "wallet.timeoutBody") (some (t "wallet.timeoutCta"))
        (some retry) none
  describe_wallet_state error ctx =
      view error (t "common.somethingWentWrong") (t "wallet.timeoutBody") (some (t "common.retry"))
        (some retry) none
  describe_wallet_state connecting ctx =
      view connecting (t "wallet.connecting") (t "wallet.connecting") none none none
  describe_wallet_state connected ctx = view connected (t "wallet.connect") "" none none none
  describe_wallet_state state ctx =
      view state (t "wallet.connect") "" (some (t "wallet.connect")) (some connect) none
