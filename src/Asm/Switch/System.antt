-- ===== src/Asm/Switch/System.antt =====
-- src/asm/switch.h: the fences, the atomic and the system instructions.
use rv8_riscv_ckpt.Base.{◌&&◌, if◌then◌else◌, [], ◌∷◌}
use rv8_riscv_ckpt.Asm.Op as Op
use rv8_riscv_ckpt.Asm.Switch.Tree.{Isa, Tree, switch, illegal}

unfoldable pub fences : Isa → Tree
fences isa =
    switch ((12, 7) ∷ [])
      ((0, Tree.op (if isa.rvi then Op.fence else illegal))
        ∷ (1, Tree.op (if isa.rvi then Op.fence_i else illegal))
        ∷ (2, Tree.op (if isa.rvi && isa.rv128 then Op.lq else illegal))
        ∷ [])
      (Tree.op illegal)

unfoldable pub atomics : Isa → Tree
atomics isa =
    switch ((24, 248) ∷ (12, 7) ∷ [])
      ((2, Tree.op (if isa.rva then Op.amoadd_w else illegal))
        ∷ (3, Tree.op (if isa.rva then Op.amoadd_d else illegal))
        ∷ (4, Tree.op (if isa.rva && isa.rv128 then Op.amoadd_q else illegal))
        ∷ (10, Tree.op (if isa.rva then Op.amoswap_w else illegal))
        ∷ (11, Tree.op (if isa.rva then Op.amoswap_d else illegal))
        ∷ (12, Tree.op (if isa.rva && isa.rv128 then Op.amoswap_q else illegal))
        ∷ (
          18,
          switch ((20, 31) ∷ []) ((0, Tree.op (if isa.rva then Op.lr_w else illegal)) ∷ [])
              (Tree.op illegal),
        )
        ∷ (
          19,
          switch ((20, 31) ∷ []) ((0, Tree.op (if isa.rva then Op.lr_d else illegal)) ∷ [])
              (Tree.op illegal),
        )
        ∷ (
          20,
          switch ((20, 31) ∷ [])
              ((0, Tree.op (if isa.rva && isa.rv128 then Op.lr_q else illegal)) ∷ [])
              (Tree.op illegal),
        )
        ∷ (26, Tree.op (if isa.rva then Op.sc_w else illegal))
        ∷ (27, Tree.op (if isa.rva then Op.sc_d else illegal))
        ∷ (28, Tree.op (if isa.rva && isa.rv128 then Op.sc_q else illegal))
        ∷ (34, Tree.op (if isa.rva then Op.amoxor_w else illegal))
        ∷ (35, Tree.op (if isa.rva then Op.amoxor_d else illegal))
        ∷ (36, Tree.op (if isa.rva && isa.rv128 then Op.amoxor_q else illegal))
        ∷ (66, Tree.op (if isa.rva then Op.amoor_w else illegal))
        ∷ (67, Tree.op (if isa.rva then Op.amoor_d else illegal))
        ∷ (68, Tree.op (if isa.rva && isa.rv128 then Op.amoor_q else illegal))
        ∷ (98, Tree.op (if isa.rva then Op.amoand_w else illegal))
        ∷ (99, Tree.op (if isa.rva then Op.amoand_d else illegal))
        ∷ (100, Tree.op (if isa.rva && isa.rv128 then Op.amoand_q else illegal))
        ∷ (130, Tree.op (if isa.rva then Op.amomin_w else illegal))
        ∷ (131, Tree.op (if isa.rva then Op.amomin_d else illegal))
        ∷ (132, Tree.op (if isa.rva && isa.rv128 then Op.amomin_q else illegal))
        ∷ (162, Tree.op (if isa.rva then Op.amomax_w else illegal))
        ∷ (163, Tree.op (if isa.rva then Op.amomax_d else illegal))
        ∷ (164, Tree.op (if isa.rva && isa.rv128 then Op.amomax_q else illegal))
        ∷ (194, Tree.op (if isa.rva then Op.amominu_w else illegal))
        ∷ (195, Tree.op (if isa.rva then Op.amominu_d else illegal))
        ∷ (196, Tree.op (if isa.rva && isa.rv128 then Op.amominu_q else illegal))
        ∷ (226, Tree.op (if isa.rva then Op.amomaxu_w else illegal))
        ∷ (227, Tree.op (if isa.rva then Op.amomaxu_d else illegal))
        ∷ (228, Tree.op (if isa.rva && isa.rv128 then Op.amomaxu_q else illegal))
        ∷ [])
      (Tree.op illegal)

unfoldable pub environment : Isa → Tree
environment isa =
    switch ((20, 4064) ∷ (7, 31) ∷ [])
      ((
        0,
        switch ((15, 1023) ∷ [])
            ((0, Tree.op (if isa.rvs then Op.ecall else illegal))
              ∷ (32, Tree.op (if isa.rvs then Op.ebreak else illegal))
              ∷ (64, Tree.op (if isa.rvs then Op.uret else illegal))
              ∷ [])
            (Tree.op illegal),
      )
        ∷ (
          256,
          switch ((20, 31) ∷ [])
              ((
                2,
                switch ((15, 31) ∷ []) ((0, Tree.op (if isa.rvs then Op.sret else illegal)) ∷ [])
                    (Tree.op illegal),
              )
                ∷ (4, Tree.op (if isa.rvs then Op.sfence_vm else illegal))
                ∷ (
                  5,
                  switch ((15, 31) ∷ []) ((0, Tree.op (if isa.rvs then Op.wfi else illegal)) ∷ [])
                      (Tree.op illegal),
                )
                ∷ [])
              (Tree.op illegal),
        )
        ∷ (288, Tree.op (if isa.rvs then Op.sfence_vma else illegal))
        ∷ (
          512,
          switch ((15, 1023) ∷ []) ((64, Tree.op (if isa.rvs then Op.hret else illegal)) ∷ [])
              (Tree.op illegal),
        )
        ∷ (
          768,
          switch ((15, 1023) ∷ []) ((64, Tree.op (if isa.rvs then Op.mret else illegal)) ∷ [])
              (Tree.op illegal),
        )
        ∷ (
          1952,
          switch ((15, 1023) ∷ []) ((576, Tree.op (if isa.rvs then Op.dret else illegal)) ∷ [])
              (Tree.op illegal),
        )
        ∷ [])
      (Tree.op illegal)

unfoldable pub system : Isa → Tree
system isa =
    switch ((12, 7) ∷ [])
      ((0, environment isa)
        ∷ (1, Tree.op (if isa.rvs then Op.csrrw else illegal))
        ∷ (2, Tree.op (if isa.rvs then Op.csrrs else illegal))
        ∷ (3, Tree.op (if isa.rvs then Op.csrrc else illegal))
        ∷ (5, Tree.op (if isa.rvs then Op.csrrwi else illegal))
        ∷ (6, Tree.op (if isa.rvs then Op.csrrsi else illegal))
        ∷ (7, Tree.op (if isa.rvs then Op.csrrci else illegal))
        ∷ [])
      (Tree.op illegal)
