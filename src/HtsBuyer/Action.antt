-- ===== src/HtsBuyer/Action.antt =====
-- What a call of the buyer acts on: the intent's file, and the record of signatures and dispatches.
use obolos.Prelude.{String, List, ◌∷◌, ok, err, Option, none, some}
use obolos.HtsBuyer.{
  Intent, IntentFile, missing, unreadable, contents, WriteEnd, written, lost, torn,
}
use obolos.HtsBuyer.{half_done}
use obolos.Stateful.{Stateful}

-- A signature, and the dispatch of the payment with a transaction.
pub data HtsEvent : Type 0 where
  signing : HtsEvent
  dispatching : String → HtsEvent

pub record BuyerState : Type 0 where
  pub file : IntentFile
  pub events : List HtsEvent

abbrev pub Action : Type 0 → Type 0
Action = Stateful BuyerState

abbrev pub emit : HtsEvent → Action (Unit {0})
emit event s = (record s { events = event ∷ s.events }, ok tt)

-- `durableWrite` by a new file and a rename.
unfoldable pub replace_file : WriteEnd → Intent → Action (Unit {0})
replace_file written intent s = (record s { file = contents intent }, ok tt)
replace_file lost intent s = (s, err "write failed")
replace_file torn intent s = (s, err "write failed")
replace_file half_done intent s = (record s { file = contents intent }, err "sync failed")

-- `durableWrite` of a file that must not be there.
unfoldable pub create_file : WriteEnd → Intent → Action (Unit {0})
create_file end intent s = elim s.file [
  | missing ↦ elim end [
    | written ↦ (record s { file = contents intent }, ok tt)
    | lost ↦ (s, err "open failed")
    | torn ↦ (record s { file = unreadable }, err "write failed")
    | half_done ↦ (record s { file = contents intent }, err "sync failed")
  ]
  | _ ↦ (s, err "EEXIST")
]

-- The intent of an earlier call; a text that is no JSON is thrown on.
unfoldable pub read_file : Action (Option Intent)
read_file s = (
  s,
  elim s.file [
    | missing ↦ ok none
    | unreadable ↦ err "Unexpected token"
    | contents intent ↦ ok (some intent)
  ],
)
