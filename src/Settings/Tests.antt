-- ===== src/Settings/Tests.antt =====
-- The theorem on overriding settings at two repositories in memory.
use p2pchat.Settings.Laws.{IsRepository}
use p2pchat.Settings.Laws.Memory.{memory, memory-IsRepository}
use p2pchat.Settings.Laws.Overrides.{overriding, overriding-IsRepository}

overriding-IsRepository_example : IsRepository (overriding memory memory)
overriding-IsRepository_example =
    overriding-IsRepository memory memory memory-IsRepository memory-IsRepository
