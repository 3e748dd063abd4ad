-- ===== src/Index/Finality/Chains.antt =====
-- The configurations that chainindex-core/src/finality.rs builds in. A duration is in milliseconds.
use chainkit.Prelude.{Bool, Option, String, false, none, some, true, ℕ}

pub record FinalityConfig : Type 0 where
  pub chain : String
  pub safe_confirmations : ℕ
  pub finalized_confirmations : ℕ
  pub block_time : ℕ
  pub reorg_window : ℕ
  pub allows_slot_skipping : Bool
  pub has_sequencer : Bool
  pub settlement_chain : Option String

abbrev pub ethereum : FinalityConfig
ethereum = record {
  chain = "ethereum";
  safe_confirmations = 32;
  finalized_confirmations = 64;
  block_time = 12000;
  reorg_window = 128;
  allows_slot_skipping = false;
  has_sequencer = false;
  settlement_chain = none;
}

abbrev pub polygon : FinalityConfig
polygon = record {
  chain = "polygon";
  safe_confirmations = 128;
  finalized_confirmations = 256;
  block_time = 2000;
  reorg_window = 512;
  allows_slot_skipping = false;
  has_sequencer = false;
  settlement_chain = some "ethereum";
}

abbrev pub arbitrum : FinalityConfig
arbitrum = record {
  chain = "arbitrum";
  safe_confirmations = 0;
  finalized_confirmations = 1;
  block_time = 250;
  reorg_window = 64;
  allows_slot_skipping = false;
  has_sequencer = true;
  settlement_chain = some "ethereum";
}

abbrev pub optimism : FinalityConfig
optimism = record {
  chain = "optimism";
  safe_confirmations = 0;
  finalized_confirmations = 1;
  block_time = 2000;
  reorg_window = 64;
  allows_slot_skipping = false;
  has_sequencer = true;
  settlement_chain = some "ethereum";
}

abbrev pub base : FinalityConfig
base = record {
  chain = "base";
  safe_confirmations = 0;
  finalized_confirmations = 1;
  block_time = 2000;
  reorg_window = 64;
  allows_slot_skipping = false;
  has_sequencer = true;
  settlement_chain = some "ethereum";
}

abbrev pub bsc : FinalityConfig
bsc = record {
  chain = "bsc";
  safe_confirmations = 15;
  finalized_confirmations = 15;
  block_time = 3000;
  reorg_window = 64;
  allows_slot_skipping = false;
  has_sequencer = false;
  settlement_chain = none;
}

abbrev pub avalanche : FinalityConfig
avalanche = record {
  chain = "avalanche";
  safe_confirmations = 1;
  finalized_confirmations = 1;
  block_time = 2000;
  reorg_window = 32;
  allows_slot_skipping = false;
  has_sequencer = false;
  settlement_chain = none;
}

abbrev pub solana : FinalityConfig
solana = record {
  chain = "solana";
  safe_confirmations = 1;
  finalized_confirmations = 32;
  block_time = 400;
  reorg_window = 256;
  allows_slot_skipping = true;
  has_sequencer = false;
  settlement_chain = none;
}

abbrev pub fantom : FinalityConfig
fantom = record {
  chain = "fantom";
  safe_confirmations = 1;
  finalized_confirmations = 1;
  block_time = 1000;
  reorg_window = 32;
  allows_slot_skipping = false;
  has_sequencer = false;
  settlement_chain = none;
}

abbrev pub scroll : FinalityConfig
scroll = record {
  chain = "scroll";
  safe_confirmations = 0;
  finalized_confirmations = 1;
  block_time = 3000;
  reorg_window = 64;
  allows_slot_skipping = false;
  has_sequencer = true;
  settlement_chain = some "ethereum";
}

abbrev pub zksync : FinalityConfig
zksync = record {
  chain = "zksync";
  safe_confirmations = 0;
  finalized_confirmations = 1;
  block_time = 1000;
  reorg_window = 64;
  allows_slot_skipping = false;
  has_sequencer = true;
  settlement_chain = some "ethereum";
}

abbrev pub linea : FinalityConfig
linea = record {
  chain = "linea";
  safe_confirmations = 0;
  finalized_confirmations = 1;
  block_time = 12000;
  reorg_window = 64;
  allows_slot_skipping = false;
  has_sequencer = true;
  settlement_chain = some "ethereum";
}

abbrev pub cosmoshub : FinalityConfig
cosmoshub = record {
  chain = "cosmoshub";
  safe_confirmations = 1;
  finalized_confirmations = 1;
  block_time = 6000;
  reorg_window = 32;
  allows_slot_skipping = false;
  has_sequencer = false;
  settlement_chain = none;
}

abbrev pub osmosis : FinalityConfig
osmosis = record {
  chain = "osmosis";
  safe_confirmations = 1;
  finalized_confirmations = 1;
  block_time = 6000;
  reorg_window = 32;
  allows_slot_skipping = false;
  has_sequencer = false;
  settlement_chain = none;
}

abbrev pub polkadot : FinalityConfig
polkadot = record {
  chain = "polkadot";
  safe_confirmations = 1;
  finalized_confirmations = 1;
  block_time = 6000;
  reorg_window = 32;
  allows_slot_skipping = true;
  has_sequencer = false;
  settlement_chain = none;
}

abbrev pub kusama : FinalityConfig
kusama = record {
  chain = "kusama";
  safe_confirmations = 1;
  finalized_confirmations = 1;
  block_time = 6000;
  reorg_window = 32;
  allows_slot_skipping = true;
  has_sequencer = false;
  settlement_chain = none;
}

abbrev pub bitcoin : FinalityConfig
bitcoin = record {
  chain = "bitcoin";
  safe_confirmations = 3;
  finalized_confirmations = 6;
  block_time = 600000;
  reorg_window = 12;
  allows_slot_skipping = false;
  has_sequencer = false;
  settlement_chain = none;
}

abbrev pub aptos : FinalityConfig
aptos = record {
  chain = "aptos";
  safe_confirmations = 1;
  finalized_confirmations = 1;
  block_time = 4000;
  reorg_window = 32;
  allows_slot_skipping = false;
  has_sequencer = false;
  settlement_chain = none;
}

abbrev pub sui : FinalityConfig
sui = record {
  chain = "sui";
  safe_confirmations = 1;
  finalized_confirmations = 1;
  block_time = 500;
  reorg_window = 64;
  allows_slot_skipping = false;
  has_sequencer = false;
  settlement_chain = none;
}
