-- ===== src/Registry/Config/Validation/Sound.antt =====
-- The bounds that the tests of `validateConfig` of internal/registry/config.go stand for, part by part.
use shock_absorber.Prelude.{
  if◌then◌else◌, String, ◌≡◌, ◌≢◌, ◌↔◌, ◌⊎◌, refl, true, false, ℤ, pos, Positive, NonNegative,
  AtMost, not_positive_iff, is_negative_iff, le_ℤ_iff, arith, List, [], ◌∷◌, Done, done,
  first_error_iff, eq_iff, ◌==◌, Bool, ◌||◌, not, ◌&&◌, le_ℤ, not_positive, sym, ap, first_error,
  false≢true, inl, inr, Bool-cases, nan, lt_float, IsThreshold, outside_iff, le_float-false,
}
use shock_absorber.Registry.Config.{
  InternalDatabaseConfig, InternalWriteBackConfig, InternalAutoScalingConfig,
}
use shock_absorber.Registry.Config.Validation.{
  validate_database, validate_write_back, validate_auto_scaling, database_checks, write_back_checks,
  auto_scaling_checks, no_elements,
}

pub record IsValidDatabase (d : InternalDatabaseConfig) : Type 0 where
  pub type_known : (d.type ≡ "mysql") ⊎ (d.type ≡ "postgresql")
  pub host_given : d.host ≢ ""
  pub port_positive : Positive d.port
  pub port_at_most : AtMost d.port (pos 65535)
  pub database_given : d.database ≢ ""
  pub username_given : d.username ≢ ""
  pub connections : Positive d.max_open_conns

pub record IsValidWriteBack (w : InternalWriteBackConfig) : Type 0 where
  pub batch_positive : Positive w.batch_size
  pub rate_positive : Positive w.drain_rate
  pub retries_nonnegative : NonNegative w.max_retries
  pub ttl_positive : Positive w.default_ttl
  pub queue_known :
      (w.queue_type ≡ "")
      ⊎ (w.queue_type ≡ "memory")
      ⊎ (w.queue_type ≡ "redis")
      ⊎ (w.queue_type ≡ "kafka")
  pub kafka_brokers : (w.queue_type ≢ "kafka") ⊎ (w.kafka_config.brokers ≢ [])
  pub kafka_topic : (w.queue_type ≢ "kafka") ⊎ (w.kafka_config.topic ≢ "")

pub record IsValidScaling (a : InternalAutoScalingConfig) : Type 0 where
  pub drainers_positive : Positive a.min_drainers
  pub drainers_ordered : AtMost a.min_drainers a.max_drainers
  pub high_in_range : IsThreshold a.cpu_threshold_high
  pub low_in_range : IsThreshold a.cpu_threshold_low
  pub low_below_high :
      (a.cpu_threshold_high ≡ nan)
      ⊎ (a.cpu_threshold_low ≡ nan)
      ⊎ (lt_float a.cpu_threshold_low a.cpu_threshold_high ≡ true)
  pub interval_positive : Positive a.monitoring_interval

pub validate_database_sound :
    (d : InternalDatabaseConfig) → validate_database d ≡ done → IsValidDatabase d
unfolding validate_database
validate_database_sound d h =
    let cs = (first_error_iff (database_checks d)).0 h in
    record {
      type_known = ground (arith, cs.1.0, eq_iff d.type "mysql", eq_iff d.type "postgresql");
      host_given = ground (arith, cs.1.1.0, eq_iff d.host "");
      port_positive = (not_positive_iff d.port).0 (ground (arith, cs.1.1.1.0));
      port_at_most = (le_ℤ_iff d.port (pos 65535)).0 (ground (arith, cs.1.1.1.0));
      database_given = ground (arith, cs.1.1.1.1.0, eq_iff d.database "");
      username_given = ground (arith, cs.1.1.1.1.1.0, eq_iff d.username "");
      connections = (not_positive_iff d.max_open_conns).0 cs.1.1.1.1.1.1.0;
    }

-- The Boolean tests that hold of an acceptable range, and of a name that is given.
in_range : (z w : ℤ) → Positive z → AtMost z w → (not_positive z || not (le_ℤ z w)) ≡ false
in_range z w p q = ground (arith, not_positive_iff z, le_ℤ_iff z w)

not-eq_false : (b : Bool) → not b ≡ false → b ≡ true
not-eq_false b h = ground arith

pub given : (s : String) → s ≢ "" → (s == "") ≡ false
given s h = ground (arith, eq_iff s "")

pub validate_database_complete :
    (d : InternalDatabaseConfig) → IsValidDatabase d → validate_database d ≡ done
unfolding validate_database
validate_database_complete d v = (first_error_iff (database_checks d)).1 (
  ground (
    arith,
    v.type_known,
    eq_iff d.type "",
    eq_iff d.type "mysql",
    eq_iff d.type "postgresql",
    eq_iff "mysql" "",
    eq_iff "postgresql" "",
  ),
  (
    ground (arith, v.type_known, eq_iff d.type "mysql", eq_iff d.type "postgresql"),
    (
      given d.host v.host_given,
      (
        in_range d.port (pos 65535) v.port_positive v.port_at_most,
        (
          given d.database v.database_given,
          (
            given d.username v.username_given,
            ((not_positive_iff d.max_open_conns).1 v.connections, tt),
          ),
        ),
      ),
    ),
  ),
)

pub some_element : (xs : List String) → xs ≢ [] → no_elements xs ≡ false
some_element [] h = absurd (h refl)
some_element (x ∷ xs) h = refl

pub no_element : (xs : List String) → no_elements xs ≡ false → xs ≢ []
no_element [] h = cc
no_element (x ∷ xs) h = λ e. cc

pub validate_write_back_sound :
    (w : InternalWriteBackConfig) → validate_write_back w ≡ done → IsValidWriteBack w
unfolding validate_write_back
validate_write_back_sound w h =
    let cs = (first_error_iff (write_back_checks w)).0 h in
    record {
      batch_positive = (not_positive_iff w.batch_size).0 cs.0;
      rate_positive = (not_positive_iff w.drain_rate).0 cs.1.0;
      retries_nonnegative = (is_negative_iff w.max_retries).0 cs.1.1.0;
      ttl_positive = (not_positive_iff w.default_ttl).0 cs.1.1.1.0;
      queue_known = ground (
        arith,
        cs.1.1.1.1.0,
        eq_iff w.queue_type "",
        eq_iff w.queue_type "memory",
        eq_iff w.queue_type "redis",
        eq_iff w.queue_type "kafka",
      );
      kafka_brokers = elim (Bool-cases (w.queue_type == "kafka")) [
        | inl k ↦ inr (no_element w.kafka_config.brokers (ground (arith, k, cs.1.1.1.1.1.0)))
        | inr n ↦ inl (ground (arith, n, eq_iff w.queue_type "kafka"))
      ];
      kafka_topic = elim (Bool-cases (w.queue_type == "kafka")) [
        | inl k ↦ inr (ground (arith, k, cs.1.1.1.1.1.1.0, eq_iff w.kafka_config.topic ""))
        | inr n ↦ inl (ground (arith, n, eq_iff w.queue_type "kafka"))
      ];
    }

-- A test that is made for one queue type only.
only_if : (b c : Bool) → (b ≡ true → c ≡ false) → (b && c) ≡ false
only_if true c h = h refl
only_if false c h = refl

pub validate_write_back_complete :
    (w : InternalWriteBackConfig) → IsValidWriteBack w → validate_write_back w ≡ done
unfolding validate_write_back
validate_write_back_complete w v = (first_error_iff (write_back_checks w)).1 (
  (not_positive_iff w.batch_size).1 v.batch_positive,
  (
    (not_positive_iff w.drain_rate).1 v.rate_positive,
    (
      (is_negative_iff w.max_retries).1 v.retries_nonnegative,
      (
        (not_positive_iff w.default_ttl).1 v.ttl_positive,
        (
          ground (
            arith,
            v.queue_known,
            eq_iff w.queue_type "",
            eq_iff w.queue_type "memory",
            eq_iff w.queue_type "redis",
            eq_iff w.queue_type "kafka",
          ),
          (
            only_if (w.queue_type == "kafka") (no_elements w.kafka_config.brokers) (λ k.
                some_element w.kafka_config.brokers
                  (ground (arith, k, v.kafka_brokers, eq_iff w.queue_type "kafka"))),
            (
              only_if (w.queue_type == "kafka") (w.kafka_config.topic == "") (λ k.
                  given w.kafka_config.topic
                    (ground (arith, k, v.kafka_topic, eq_iff w.queue_type "kafka"))),
              tt,
            ),
          ),
        ),
      ),
    ),
  ),
)

scaling_sound :
    (a : InternalAutoScalingConfig) → first_error (auto_scaling_checks a) ≡ done → IsValidScaling a
scaling_sound a h =
    let cs = (first_error_iff (auto_scaling_checks a)).0 h in
    record {
      drainers_positive = (not_positive_iff a.min_drainers).0 cs.0;
      drainers_ordered = (le_ℤ_iff a.min_drainers a.max_drainers).0 (not-eq_false _ cs.1.0);
      high_in_range = (outside_iff a.cpu_threshold_high).0 cs.1.1.0;
      low_in_range = (outside_iff a.cpu_threshold_low).0 cs.1.1.1.0;
      low_below_high = (le_float-false a.cpu_threshold_high a.cpu_threshold_low).0 cs.1.1.1.1.0;
      interval_positive = (not_positive_iff a.monitoring_interval).0 cs.1.1.1.1.1.0;
    }

scaling_complete :
    (a : InternalAutoScalingConfig) → IsValidScaling a → first_error (auto_scaling_checks a) ≡ done
scaling_complete a v = (first_error_iff (auto_scaling_checks a)).1 (
  (not_positive_iff a.min_drainers).1 v.drainers_positive,
  (
    ap not ((le_ℤ_iff a.min_drainers a.max_drainers).1 v.drainers_ordered),
    (
      (outside_iff a.cpu_threshold_high).1 v.high_in_range,
      (
        (outside_iff a.cpu_threshold_low).1 v.low_in_range,
        (
          (le_float-false a.cpu_threshold_high a.cpu_threshold_low).1 v.low_below_high,
          ((not_positive_iff a.monitoring_interval).1 v.interval_positive, tt),
        ),
      ),
    ),
  ),
)

when_iff :
    {P : Type 0} (b : Bool) (m : Done)
    → (m ≡ done) ↔ P
    → ((if b then m else done) ≡ done) ↔ ((b ≡ false) ⊎ P)
when_iff true m e =
    (λ h. inr (e.0 h), λ v. elim v [ inl n ↦ absurd (false≢true (sym n)) | inr p ↦ e.1 p ])
when_iff false m e = (λ h. inl refl, λ v. refl)

abbrev pub IsValidAutoScaling : InternalAutoScalingConfig → Type 0
IsValidAutoScaling a = (a.enabled ≡ false) ⊎ IsValidScaling a

pub validate_auto_scaling_iff :
    (a : InternalAutoScalingConfig) → (validate_auto_scaling a ≡ done) ↔ IsValidAutoScaling a
unfolding validate_auto_scaling
validate_auto_scaling_iff a =
    when_iff a.enabled (first_error (auto_scaling_checks a)) (scaling_sound a, scaling_complete a)
