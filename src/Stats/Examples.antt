-- ===== src/Stats/Examples.antt =====
-- The pointer comes over two points and leaves.
use cmoon.Base.{[]}
use cmoon.Stats.{Item}

abbrev third : Item
third = record { datapoint = 3; x = 10; y = 20; label = [] }

abbrev fourth : Item
fourth = record { datapoint = 4; x = 11; y = 25; label = [] }
