-- ===== src/Signal/Catalogue.antt =====
-- signal.ts: the sixteen applications, the entry gate, and who may send.
use olive_branch.Prelude.{
  ℕ, ◌≡◌, refl, Bool, true, false, Option, some, List, [], ◌∷◌, String, ◌==◌, find, any,
  if◌then◌else◌,
}

pub data SignalKind : Type 0 where
  come_back im_here look_at_this show_me_again : SignalKind
  turn_it_round can_you_hear_me louder nearly_bedtime : SignalKind
  your_turn wave_to_other running_late say_goodnight : SignalKind
  someone_says_hello sorry_my_end nearly_there well_done : SignalKind

pub data Interruptibility : Type 0 where
  always defers never : Interruptibility

pub data SenderRole : Type 0 where
  absent_parent present_parent either_parent : SenderRole

pub record Application : Type 0 where
  pub kind : SignalKind
  pub copy : String
  pub sender : SenderRole
  pub interruptibility : Interruptibility
  pub safe_if_tapped_by_accident : Bool
  pub safety_critical : Bool
  pub min_age : ℕ

-- The position of a kind in the source's list, by which kinds are told apart.
abbrev pub kind_number : SignalKind → ℕ
kind_number come_back = 0
kind_number im_here = 1
kind_number look_at_this = 2
kind_number show_me_again = 3
kind_number turn_it_round = 4
kind_number can_you_hear_me = 5
kind_number louder = 6
kind_number nearly_bedtime = 7
kind_number your_turn = 8
kind_number wave_to_other = 9
kind_number running_late = 10
kind_number say_goodnight = 11
kind_number someone_says_hello = 12
kind_number sorry_my_end = 13
kind_number nearly_there = 14
kind_number well_done = 15

abbrev pub applications : List Application
applications =
    record {
      kind = come_back;
      copy = "Dad is waiting. Tap to go back.";
      sender = absent_parent;
      interruptibility = defers;
      safe_if_tapped_by_accident = true;
      safety_critical = false;
      min_age = 2;
    }
    ∷ record {
      kind = im_here;
      copy = "Dad is here.";
      sender = absent_parent;
      interruptibility = defers;
      safe_if_tapped_by_accident = true;
      safety_critical = false;
      min_age = 2;
    }
    ∷ record {
      kind = look_at_this;
      copy = "Dad sent you something.";
      sender = absent_parent;
      interruptibility = defers;
      safe_if_tapped_by_accident = true;
      safety_critical = false;
      min_age = 3;
    }
    ∷ record {
      kind = show_me_again;
      copy = "Can you hold it up again?";
      sender = absent_parent;
      interruptibility = always;
      safe_if_tapped_by_accident = true;
      safety_critical = false;
      min_age = 3;
    }
    ∷ record {
      kind = turn_it_round;
      copy = "Turn the camera round?";
      sender = absent_parent;
      interruptibility = always;
      safe_if_tapped_by_accident = true;
      safety_critical = false;
      min_age = 4;
    }
    ∷ record {
      kind = can_you_hear_me;
      copy = "Can you hear me?";
      sender = either_parent;
      interruptibility = always;
      safe_if_tapped_by_accident = true;
      safety_critical = false;
      min_age = 3;
    }
    ∷ record {
      kind = louder;
      copy = "Come a bit closer?";
      sender = either_parent;
      interruptibility = always;
      safe_if_tapped_by_accident = true;
      safety_critical = false;
      min_age = 3;
    }
    ∷ record {
      kind = nearly_bedtime;
      copy = "Nearly bedtime.";
      sender = present_parent;
      interruptibility = defers;
      safe_if_tapped_by_accident = true;
      safety_critical = false;
      min_age = 3;
    }
    ∷ record {
      kind = your_turn;
      copy = "Your turn.";
      sender = absent_parent;
      interruptibility = defers;
      safe_if_tapped_by_accident = true;
      safety_critical = false;
      min_age = 4;
    }
    ∷ record {
      kind = wave_to_other;
      copy = "Wave to Mum?";
      sender = present_parent;
      interruptibility = always;
      safe_if_tapped_by_accident = true;
      safety_critical = false;
      min_age = 3;
    }
    ∷ record {
      kind = running_late;
      copy = "Dad is running a bit late.";
      sender = absent_parent;
      interruptibility = defers;
      safe_if_tapped_by_accident = true;
      safety_critical = false;
      min_age = 4;
    }
    ∷ record {
      kind = say_goodnight;
      copy = "Time to say goodnight.";
      sender = present_parent;
      interruptibility = always;
      safe_if_tapped_by_accident = true;
      safety_critical = false;
      min_age = 3;
    }
    ∷ record {
      kind = someone_says_hello;
      copy = "Someone wants to say hello.";
      sender = absent_parent;
      interruptibility = always;
      safe_if_tapped_by_accident = true;
      safety_critical = false;
      min_age = 3;
    }
    ∷ record {
      kind = sorry_my_end;
      copy = "That was my end. Not you.";
      sender = absent_parent;
      interruptibility = always;
      safe_if_tapped_by_accident = true;
      safety_critical = false;
      min_age = 4;
    }
    ∷ record {
      kind = nearly_there;
      copy = "Dad is nearly there.";
      sender = absent_parent;
      interruptibility = defers;
      safe_if_tapped_by_accident = true;
      safety_critical = false;
      min_age = 3;
    }
    ∷ record {
      kind = well_done;
      copy = "Dad heard about today. Well done.";
      sender = absent_parent;
      interruptibility = defers;
      safe_if_tapped_by_accident = true;
      safety_critical = false;
      min_age = 4;
    }
    ∷ []

-- `APPLICATIONS.find(...)`. The source asserts with `!` that the search succeeds.
unfoldable pub application : SignalKind → Option Application
application k = find (λ a. kind_number a.kind == kind_number k) applications

pub data AdmitError : Type 0 where
  unsafe_if_mistapped unknown_kind : AdmitError

pub data Admission : Type 0 where
  admitted : Admission
  rejected : AdmitError → Admission

unfoldable pub admit_application : Application → Admission
admit_application a =
    if a.safe_if_tapped_by_accident then admitted else rejected unsafe_if_mistapped

pub data Configuration : Type 0 where
  both_parents one_parent_only sole_guardian both_in_same_house : Configuration

pub data Principal : Type 0 where
  parent grandparent stepparent caregiver therapist coordinator supervisor : Principal

abbrev pub principal_number : Principal → ℕ
principal_number parent = 0
principal_number grandparent = 1
principal_number stepparent = 2
principal_number caregiver = 3
principal_number therapist = 4
principal_number coordinator = 5
principal_number supervisor = 6

abbrev pub may_send : List Principal
may_send = parent ∷ []

unfoldable pub can_send : Principal → Bool
can_send p = any (λ q. principal_number q == principal_number p) may_send

unfoldable pub active_in_configuration : Configuration → Bool
active_in_configuration both_in_same_house = false
active_in_configuration _ = true

-- Every kind of signal has an entry of its own in the catalogue, and no application is exempt from
-- the ceiling, the silent hours and the blocked windows: each passes the entry gate, and none is
-- safety critical.
pub application_total :
    (k : SignalKind)
    → (a : Application) × (application k ≡ some a)
      × (a.kind ≡ k)
      × (admit_application a ≡ admitted)
      × (a.safety_critical ≡ false)
unfolding application admit_application
application_total come_back = (_, refl, refl, refl, refl)
application_total im_here = (_, refl, refl, refl, refl)
application_total look_at_this = (_, refl, refl, refl, refl)
application_total show_me_again = (_, refl, refl, refl, refl)
application_total turn_it_round = (_, refl, refl, refl, refl)
application_total can_you_hear_me = (_, refl, refl, refl, refl)
application_total louder = (_, refl, refl, refl, refl)
application_total nearly_bedtime = (_, refl, refl, refl, refl)
application_total your_turn = (_, refl, refl, refl, refl)
application_total wave_to_other = (_, refl, refl, refl, refl)
application_total running_late = (_, refl, refl, refl, refl)
application_total say_goodnight = (_, refl, refl, refl, refl)
application_total someone_says_hello = (_, refl, refl, refl, refl)
application_total sorry_my_end = (_, refl, refl, refl, refl)
application_total nearly_there = (_, refl, refl, refl, refl)
application_total well_done = (_, refl, refl, refl, refl)
