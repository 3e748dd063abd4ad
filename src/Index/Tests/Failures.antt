-- ===== src/Index/Tests/Failures.antt =====
-- A queue with two failed events.
use chainkit.Prelude.{[], arith, refl, ℕ, ◌∷◌}
use chainkit.Prelude.Int.{pos}
use chainkit.Index.Event.{DecodedEvent}
use chainkit.Index.DeadLetters.{
  DlqEntry, failed, DlqConfig, DeadLetterQueue, Library, new, push, pop_ready, get,
}
use chainkit.Index.DeadLetters.Accounts.{Accounts}
use chainkit.Index.DeadLetters.Sequences.{Reachable, start, after, pushes, pops, Reachable-Accounts}

abbrev lib : Library
lib = record { display = λ n. "0"; display_i64 = λ z. "9"; backoff = λ attempt. 2 }

abbrev config : DlqConfig
config = record { max_retries = 2; initial_backoff = 1 }

abbrev event : DecodedEvent ℕ
event = record {
  chain = "ethereum";
  schema = "Transfer";
  address = "0xdead";
  tx_hash = "0x1";
  block_number = 10;
  log_index = 0;
  fields_json = 7;
}

abbrev pushed : DeadLetterQueue ℕ
pushed = push lib (new config) event "h" "timeout" (pos 9)

reached : Reachable lib config (pop_ready pushed (pos 20)).1
unfolding new get
reached =
    after (after start (pushes (new config) event "h" "timeout" (pos 9) refl (omega arith)))
      (pops pushed (pos 20))

Reachable-Accounts_example : Accounts (pop_ready pushed (pos 20)).1
Reachable-Accounts_example = Reachable-Accounts lib config reached

abbrev entry : DlqEntry ℕ
entry = record {
  id = "x";
  event = event;
  handler_name = "h";
  error_message = "timeout";
  attempt_count = 2;
  max_attempts = 2;
  first_failed_at = pos 9;
  last_failed_at = pos 12;
  next_retry_at = pos 11;
  status = failed;
}

abbrev given_up : DeadLetterQueue ℕ
given_up = record {
  config = config;
  entries = entry ∷ [];
  stats = record { total_added = 1; pending_count = 0; failed_count = 1; retried_success = 0 };
}
