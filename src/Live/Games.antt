-- ===== src/Live/Games.antt =====
-- live.ts: the games that are played during a call, and their cards.
use olive_branch.Prelude.{
  ℕ, String, Bool, true, false, Option, none, some, List, [], ◌∷◌, ◌++◌, ltb, leb, ◌==◌,
  if◌then◌else◌, filterb, find,
}

pub data Side : Type 0 where
  side_a side_b : Side

pub data LiveKind : Type 0 where
  simon_says copy_me freeze_dance charades i_spy show_me twenty_questions would_you_rather
        two_truths pictionary :
      LiveKind

pub data VideoLayout : Type 0 where
  side_by_side picture_in_picture : VideoLayout

pub record LiveGame : Type 0 where
  pub kind : LiveKind
  pub title : String
  pub min_age : ℕ
  pub min_viable_latency_ms : ℕ
  pub video_layout : VideoLayout
  pub degrades_to_async : Bool
  pub blurb : String

abbrev pub min_viable_latency_limit : ℕ
min_viable_latency_limit = 200

-- `register` adds the game to the registry, or throws.
unfoldable pub register : LiveGame → List LiveGame → Option (List LiveGame)
register g registry =
    if ltb g.min_viable_latency_ms min_viable_latency_limit then none else some (registry ++ g ∷ [])

abbrev pub live_games : List LiveGame
live_games =
    record {
      kind = simon_says;
      title = "Simon says";
      min_age = 4;
      min_viable_latency_ms = 800;
      video_layout = side_by_side;
      degrades_to_async = false;
      blurb = "The camera is the whole game.";
    }
    ∷ record {
      kind = copy_me;
      title = "Copy me";
      min_age = 4;
      min_viable_latency_ms = 800;
      video_layout = side_by_side;
      degrades_to_async = false;
      blurb = "Mirror what Dad does. Then swap.";
    }
    ∷ record {
      kind = freeze_dance;
      title = "Freeze dance";
      min_age = 4;
      min_viable_latency_ms = 1000;
      video_layout = side_by_side;
      degrades_to_async = false;
      blurb = "Dad controls the music. Lag is fine — that is the point.";
    }
    ∷ record {
      kind = charades;
      title = "Charades";
      min_age = 5;
      min_viable_latency_ms = 600;
      video_layout = side_by_side;
      degrades_to_async = false;
      blurb = "Act it out. Animal noises count.";
    }
    ∷ record {
      kind = i_spy;
      title = "I spy";
      min_age = 4;
      min_viable_latency_ms = 1000;
      video_layout = side_by_side;
      degrades_to_async = true;
      blurb = "You can see his room. He can see yours.";
    }
    ∷ record {
      kind = show_me;
      title = "Show me something…";
      min_age = 4;
      min_viable_latency_ms = 1500;
      video_layout = side_by_side;
      degrades_to_async = true;
      blurb = "Round, blue, that you made today. Go and get it.";
    }
    ∷ record {
      kind = twenty_questions;
      title = "Twenty questions";
      min_age = 8;
      min_viable_latency_ms = 2000;
      video_layout = side_by_side;
      degrades_to_async = true;
      blurb = "Conversation wearing a game costume.";
    }
    ∷ record {
      kind = would_you_rather;
      title = "Would you rather";
      min_age = 8;
      min_viable_latency_ms = 2000;
      video_layout = side_by_side;
      degrades_to_async = true;
      blurb = "Keeps a teenager on the call.";
    }
    ∷ record {
      kind = two_truths;
      title = "Two truths and a lie";
      min_age = 11;
      min_viable_latency_ms = 2000;
      video_layout = side_by_side;
      degrades_to_async = true;
      blurb = "You will learn something about him.";
    }
    ∷ record {
      kind = pictionary;
      title = "Pictionary";
      min_age = 6;
      min_viable_latency_ms = 400;
      video_layout = picture_in_picture;
      degrades_to_async = true;
      blurb = "Draw on the same page. He watches the line appear.";
    }
    ∷ []

abbrev pub live_for_age : ℕ → List LiveGame
live_for_age age = filterb (λ (g : LiveGame). leb g.min_age age) live_games

-- The place of a kind in its declaration, which tells kinds apart.
abbrev pub kind_index : LiveKind → ℕ
kind_index simon_says = 0
kind_index copy_me = 1
kind_index freeze_dance = 2
kind_index charades = 3
kind_index i_spy = 4
kind_index show_me = 5
kind_index twenty_questions = 6
kind_index would_you_rather = 7
kind_index two_truths = 8
kind_index pictionary = 9

abbrev pub kind_eq : LiveKind → LiveKind → Bool
kind_eq j k = kind_index j == kind_index k

-- `LIVE_GAMES.find(x => x.kind === kind)`
abbrev pub game_of : LiveKind → Option LiveGame
game_of kind = find (λ (g : LiveGame). kind_eq g.kind kind) live_games

-- The prompts of a kind in `DECKS`, which has a deck for each.
abbrev pub prompts_of : LiveKind → List String
prompts_of simon_says =
    "Simon says touch your nose" ∷ "Simon says stand on one leg"
    ∷ "Simon says make your scariest face" ∷ "Clap three times" ∷ "Simon says wave with both hands"
    ∷ "Simon says pretend to be asleep" ∷ "Touch your toes" ∷ "Simon says show me your teeth" ∷ []
prompts_of copy_me =
    "Big slow arm circles" ∷ "Pat your head and rub your tummy" ∷ "Blink one eye at a time"
    ∷ "A very slow robot walk" ∷ "Shrug like you have no idea" ∷ "Wiggle just your eyebrows" ∷ []
prompts_of charades =
    "A cat who has just seen a cucumber" ∷ "Brushing your teeth" ∷ "A very tired elephant"
    ∷ "Someone carrying too many bags" ∷ "A chicken crossing a road" ∷ "Trying not to sneeze"
    ∷ "A robot that needs charging" ∷ "Eating something far too hot" ∷ []
prompts_of i_spy =
    "something in my room that is blue" ∷ "something behind me that is old"
    ∷ "something you gave me" ∷ "something in your room that is round"
    ∷ "something I have had since before you were born" ∷ []
prompts_of show_me =
    "Show me something round" ∷ "Show me something you made" ∷ "Show me the softest thing near you"
    ∷ "Show me something blue" ∷ "Show me something you are proud of"
    ∷ "Show me where you like to sit" ∷ "Show me something noisy" ∷ []
prompts_of would_you_rather =
    "Would you rather be invisible or be able to fly?"
    ∷ "Would you rather never eat chocolate again or never watch TV again?"
    ∷ "Would you rather have a pet dragon or a pet dinosaur?"
    ∷ "Would you rather it always be raining or always be too hot?"
    ∷ "Would you rather be able to talk to animals or speak every language?" ∷ []
prompts_of two_truths =
    "Two things I did before you were born, one made up"
    ∷ "Two things about my first job, one made up"
    ∷ "Two things about my worst holiday, one made up" ∷ []
prompts_of freeze_dance =
    "Dance!" ∷ "FREEZE" ∷ "Dance!" ∷ "FREEZE" ∷ "Slow motion dance" ∷ "FREEZE" ∷ []
prompts_of twenty_questions = "Think of something. I get twenty questions." ∷ []
prompts_of pictionary =
    "a house" ∷ "a dog wearing a hat" ∷ "the beach" ∷ "a birthday cake" ∷ "a rocket"
    ∷ "someone sneezing" ∷ "a very tall tree" ∷ "a bicycle" ∷ []
