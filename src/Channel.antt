-- ===== src/Channel.antt =====
-- FrequencyChannel.hpp and FrequencyChannel.cpp: a frequency channel and its blacklist flag.
use ldacs_mcsotdma.Prelude.{ℕ, Bool, true, false, not, ◌&&◌, ◌==◌, ltb, leb}

pub record FrequencyChannel : Type 0 where
  pub is_p2p : Bool
  pub center_frequency : ℕ
  pub bandwidth : ℕ
  pub is_blacklisted : Bool

unfoldable pub channel : Bool → ℕ → ℕ → FrequencyChannel
channel is_p2p f b = record {
  is_p2p = is_p2p;
  center_frequency = f;
  bandwidth = b;
  is_blacklisted = false;
}

unfoldable pub copy : FrequencyChannel → FrequencyChannel
unfolding channel
copy c = record (channel c.is_p2p c.center_frequency c.bandwidth) {
  is_blacklisted = c.is_blacklisted;
}

abbrev pub is_pp : FrequencyChannel → Bool
is_pp c = c.is_p2p

abbrev pub is_sh : FrequencyChannel → Bool
is_sh c = not (is_pp c)

abbrev bool_eq : Bool → Bool → Bool
bool_eq true b = b
bool_eq false b = not b

-- `operator==`: the blacklist flag takes no part.
abbrev pub channel_eq : FrequencyChannel → FrequencyChannel → Bool
channel_eq c other =
    bool_eq (is_pp c) (is_pp other)
    && (c.center_frequency == other.center_frequency)
    && (c.bandwidth == other.bandwidth)

-- `operator<`, the key order of `std::map<FrequencyChannel, …>`: the frequency alone counts.
abbrev pub channel_lt : FrequencyChannel → FrequencyChannel → Bool
channel_lt c other = ltb c.center_frequency other.center_frequency

abbrev pub channel_le : FrequencyChannel → FrequencyChannel → Bool
channel_le c other = leb c.center_frequency other.center_frequency

abbrev pub set_blacklisted : FrequencyChannel → Bool → FrequencyChannel
set_blacklisted c value = record c { is_blacklisted = value }

abbrev pub is_blocked : FrequencyChannel → Bool
is_blocked c = c.is_blacklisted
