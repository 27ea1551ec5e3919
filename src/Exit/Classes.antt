-- ===== src/Exit/Classes.antt =====
-- The exit reasons of src/include/knhv_exit.h and `ClassifyExitReason` of src/exit/exit_model.cpp.
use knhv.Prelude.{ℕ, Bool, false, ◌||◌, List, [], ◌∷◌}
use knhv.Prelude.Tests.{◌==◌, if◌then◌else◌}

pub data ExitReason : Type 0 where
  exception_or_nmi external_interrupt triple_fault interrupt_window nmi_window cpuid : ExitReason
  hlt invlpg rdpmc rdtsc vmcall vmclear vmlaunch vmptrld vmptrst vmread vmresume : ExitReason
  vmwrite vmxoff vmxon cr_access io_instruction rdmsr wrmsr invalid_guest_state : ExitReason
  msr_loading mwait monitor_trap monitor pause machine_check ept_violation : ExitReason
  ept_misconfiguration invept rdtscp invvpid xsetbv apic_write invpcid vmfunc : ExitReason
  xsaves xrstors : ExitReason

abbrev pub reason_code : ExitReason → ℕ
reason_code exception_or_nmi = 0
reason_code external_interrupt = 1
reason_code triple_fault = 2
reason_code interrupt_window = 7
reason_code nmi_window = 8
reason_code cpuid = 10
reason_code hlt = 12
reason_code invlpg = 14
reason_code rdpmc = 15
reason_code rdtsc = 16
reason_code vmcall = 18
reason_code vmclear = 19
reason_code vmlaunch = 20
reason_code vmptrld = 21
reason_code vmptrst = 22
reason_code vmread = 23
reason_code vmresume = 24
reason_code vmwrite = 25
reason_code vmxoff = 26
reason_code vmxon = 27
reason_code cr_access = 28
reason_code io_instruction = 30
reason_code rdmsr = 31
reason_code wrmsr = 32
reason_code invalid_guest_state = 33
reason_code msr_loading = 34
reason_code mwait = 36
reason_code monitor_trap = 37
reason_code monitor = 39
reason_code pause = 40
reason_code machine_check = 41
reason_code ept_violation = 48
reason_code ept_misconfiguration = 49
reason_code invept = 50
reason_code rdtscp = 51
reason_code invvpid = 53
reason_code xsetbv = 55
reason_code apic_write = 56
reason_code invpcid = 58
reason_code vmfunc = 59
reason_code xsaves = 63
reason_code xrstors = 64

pub data ExitClass : Type 0 where
  unknown interrupt nested_vmx cpu_control time msr io memory guest_state fatal : ExitClass

-- The code of the enumeration, by which `==` on classes is decided.
abbrev pub class_code : ExitClass → ℕ
class_code unknown = 0
class_code interrupt = 1
class_code nested_vmx = 2
class_code cpu_control = 3
class_code time = 4
class_code msr = 5
class_code io = 6
class_code memory = 7
class_code guest_state = 8
class_code fatal = 9

abbrev pub is_class : ExitClass → ExitClass → Bool
is_class a b = class_code a == class_code b

-- The `case` labels of one group of the `switch`.
unfoldable pub is_one_of : ℕ → List ExitReason → Bool
is_one_of reason [] = false
is_one_of reason (label ∷ labels) = reason == reason_code label || is_one_of reason labels

abbrev pub nested_vmx_reasons : List ExitReason
nested_vmx_reasons =
    vmcall ∷ vmclear ∷ vmlaunch ∷ vmptrld ∷ vmptrst ∷ vmread ∷ vmresume ∷ vmwrite ∷ vmxoff ∷ vmxon
    ∷ invept ∷ invvpid ∷ vmfunc ∷ []

abbrev pub cpu_control_reasons : List ExitReason
cpu_control_reasons =
    hlt ∷ cpuid ∷ invlpg ∷ rdpmc ∷ cr_access ∷ mwait ∷ monitor_trap ∷ monitor ∷ pause ∷ apic_write
    ∷ invpcid ∷ xsetbv ∷ []

unfoldable pub classify_exit_reason : ℕ → ExitClass
unfolding is_one_of
classify_exit_reason reason =
    if is_one_of reason (exception_or_nmi ∷ external_interrupt ∷ interrupt_window ∷ nmi_window ∷ [])
    then interrupt
    else if is_one_of reason nested_vmx_reasons
    then nested_vmx
    else if is_one_of reason cpu_control_reasons
    then cpu_control
    else if is_one_of reason (rdtsc ∷ rdtscp ∷ [])
    then time
    else if is_one_of reason (rdmsr ∷ wrmsr ∷ xsaves ∷ xrstors ∷ [])
    then msr
    else if is_one_of reason (io_instruction ∷ [])
    then io
    else if is_one_of reason (ept_violation ∷ ept_misconfiguration ∷ [])
    then memory
    else if is_one_of reason (invalid_guest_state ∷ msr_loading ∷ [])
    then guest_state
    else if is_one_of reason (triple_fault ∷ machine_check ∷ [])
    then fatal
    else unknown
