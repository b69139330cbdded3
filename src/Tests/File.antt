-- ===== src/Tests/File.antt =====
-- A file of 2 GiB, mapped at line 1.
use escort.Prelude.{◌^◌}
use escort.NvmConfig.{create_area}
use escort.NvmConfig.Layout.{LaidOut, create_area-LaidOut}

create_area-LaidOut_example :
    LaidOut 64 (2 ^ 20) (λ a. 0) (create_area 64 (2 ^ 31) (2 ^ 20) (λ a. 0))
create_area-LaidOut_example = create_area-LaidOut 64 (2 ^ 31) (2 ^ 20) (λ a. 0)
