-- ===== src/Executor/Directory.antt =====
-- The directory of the executor: the files of each order, and the reservation that all of them share.
-- A run of one order reads and writes its own files and the reservation.
use obolos.Prelude.{String, List, [], ◌==◌, string_eq, if◌then◌else◌}
use obolos.Executor.{
  ExecutorAction, ExecutorState, ExecutorInput, File, missing, OperationFiles, Desk,
}
use obolos.Executor.{Answers, Runtime}
use obolos.Executor.Run.{run_executor}

pub record OrderFiles : Type 0 where
  pub journal : File ExecutorState
  pub operations : OperationFiles
  pub submissions : List ExecutorAction

pub record Directory : Type 0 where
  pub orders : String → OrderFiles
  pub reservation : File String

abbrev pub files_of : Desk → OrderFiles
files_of s = record { journal = s.journal; operations = s.operations; submissions = s.submissions }

abbrev pub desk_with : OrderFiles → File String → Desk
desk_with f reservation = record {
  journal = f.journal;
  operations = f.operations;
  reservation = reservation;
  submissions = f.submissions;
}

-- What the runs of an order have in hand.
abbrev pub desk_of : Directory → String → Desk
desk_of d id = desk_with (d.orders id) d.reservation

unfoldable pub put_desk : Directory → String → Desk → Directory
put_desk d id s = record {
  orders = λ other. if other == id then files_of s else d.orders other;
  reservation = s.reservation;
}

unfoldable pub run_in : Runtime → ExecutorInput → Answers → Directory → Directory
unfolding put_desk run_executor
run_in runtime intent a d =
    put_desk d intent.order_id (run_executor runtime intent a (desk_of d intent.order_id)).0

abbrev pub no_operations : OperationFiles
no_operations = record {
  of_approve = missing;
  of_pay = missing;
  of_ack = missing;
  of_abort = missing;
}

abbrev pub empty_directory : Directory
empty_directory = record {
  orders = λ id. record { journal = missing; operations = no_operations; submissions = [] };
  reservation = missing;
}

-- Runs of any orders one after the other, from an empty directory.
pub data Runs : Directory → Type 0 where
  none_yet : Runs empty_directory
  and_run :
      (runtime : Runtime) (intent : ExecutorInput) (a : Answers) {d : Directory}
      → Runs d
      → Runs (run_in runtime intent a d)
