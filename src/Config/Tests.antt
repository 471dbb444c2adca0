-- ===== src/Config/Tests.antt =====
-- pkg/config/config.go on small environments.
use ridesharing.Prelude.{◌≡◌, refl, [], ◌∷◌, same_text, arith, if◌then◌else◌}
use ridesharing.Config.{Environ, get_env_slice, comma, trimmed, split}
use ridesharing.Config.Brokers.{get_env_slice-join}

abbrev environ : Environ
environ key = if same_text key "KAFKA_BROKERS" then "kafka1:9092,kafka2:9092" else ""

-- Spaces and empty parts go.
spaces : trimmed (split comma " kafka1:9092 , ,kafka2:9092,") ≡ "kafka1:9092" ∷ "kafka2:9092" ∷ []
spaces = refl

unset : get_env_slice environ "BROKERS" "localhost:9092" comma ≡ "localhost:9092" ∷ []
unfolding get_env_slice
unset = refl

two_brokers :
    get_env_slice environ "KAFKA_BROKERS" "localhost:9092" comma
    ≡ "kafka1:9092" ∷ "kafka2:9092" ∷ []
two_brokers =
    get_env_slice-join comma environ "KAFKA_BROKERS" "localhost:9092" "kafka1:9092"
      ("kafka2:9092" ∷ []) refl (ground arith) (ground arith)
