-- ===== src/Redis/Memory.antt =====
-- A server that keeps its entries in a function: the documented commands can be met.
use backend_platform.Prelude.{suc, ◌+◌, refl, Option, none, some, if◌then◌else◌}
use backend_platform.Prelude.Text.{Text, text_eq}
use backend_platform.Redis.{
  Entry, number, text, live, counted, deadline_of, expiring, Redis, RedisLaws,
}

abbrev pub Memory : Type 0
Memory = Text → Option Entry

abbrev write : Memory → Text → Option Entry → Memory
write s k e j = if text_eq k j then e else s j

abbrev pub memory : Redis Memory
memory = record {
  stored = λ s. s;
  set = λ s now k v ttl. write s k (some (record { value = text v; deadline = some (now + ttl) }));
  incr = λ s now k. write s k (
      some (record {
        value = number (suc (counted (live now (s k))));
        deadline = deadline_of (live now (s k));
      }));
  expire = λ s now k ttl. write s k (expiring (now + ttl) (live now (s k)));
  delete = λ s k. write s k none;
}

pub memory_laws : RedisLaws memory
memory_laws = record {
  stored-set = λ s now k v ttl j. refl;
  stored-incr = λ s now k j h. refl;
  stored-expire = λ s now k ttl j. refl;
  stored-delete = λ s k j. refl;
}

abbrev pub blank : Memory
blank _ = none
